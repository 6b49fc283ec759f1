-- ===== src/Motor/Protocol.antt =====
-- Commands and replies of the motors: what is sent decodes to what was meant, and a reply changes
-- the state only when it is whole.
use pre.Prelude.{
  ◌==◌, if◌then◌else◌, Bool-cases, length, set, get_or, get_or-set_self, get_or-set_ne, ℕ, ◌+◌, ◌-◌,
  ◌*◌, ◌^◌, ◌≤◌, ◌<◌, ◌≡◌, refl, sym, ap, ◌∙◌, ◌≢◌, ◌⊎◌, inl, inr, List, [], ◌∷◌, arith,
}
use pre.Prelude.Bits.{bit_or_fields, bit_xor_self}
use pre.Motor.Checksum.{AllBytes, byte-lt, checksum-lt, checksum-set, checksum_ext}
use pre.Motor.{
  label, dev_ir, dev_vis_zoom, dev_vis_focus, Motor, calculate_checksum, shift_right, low_byte,
  move, signed32, position, parse_move, receive,
}
use pre.Prelude.Int.{ℤ, pos, negsuc, pos_part, neg_part}

abbrev pub IsInt32 : ℤ → Type 0
IsInt32 s = (pos_part s < 2 ^ 31) × (neg_part s ≤ 2 ^ 31)

-- The four bytes of a position, the lowest first, as one word.
abbrev pub word_of : ℕ → ℕ → ℕ → ℕ → ℕ
word_of a b c d = a + b * 2 ^ 8 + c * 2 ^ 16 + d * 2 ^ 24

position-word :
    (buf : List ℕ)
    → AllBytes buf
    → position buf
      ≡ signed32 (word_of (get_or buf 4 0) (get_or buf 5 0) (get_or buf 6 0) (get_or buf 7 0))
unfolding position
position-word buf h = ap signed32 (
    ground (
      arith,
      byte-lt buf 4 h,
      byte-lt buf 5 h,
      byte-lt buf 6 h,
      bit_or_fields 8 (get_or buf 4 0) (get_or buf 5 0),
      bit_or_fields 16 (get_or buf 4 0 + get_or buf 5 0 * 2 ^ 8) (get_or buf 6 0),
      bit_or_fields 24 (get_or buf 4 0 + get_or buf 5 0 * 2 ^ 8 + get_or buf 6 0 * 2 ^ 16)
          (get_or buf 7 0),
    ))

word-low_bytes :
    (s : ℤ)
    → IsInt32 s
    → signed32 (
        word_of
          (low_byte s)
          (low_byte (shift_right s 8))
          (low_byte (shift_right s 16))
          (low_byte (shift_right s 24)))
      ≡ s
word-low_bytes (pos n) h = ground arith
word-low_bytes (negsuc n) h = ground arith

low_byte-lt : (s : ℤ) → low_byte s < 256
low_byte-lt (pos n) = omega arith
low_byte-lt (negsuc n) = omega arith

-- The first eight bytes of a command, and the first nine of a reply.
abbrev pub command_bytes : ℕ → ℤ → List ℕ → List ℕ
command_bytes dev s rest =
    label
    ∷ dev
    ∷ 0x04
    ∷ 0x00
    ∷ low_byte s
    ∷ low_byte (shift_right s 8)
    ∷ low_byte (shift_right s 16)
    ∷ low_byte (shift_right s 24)
    ∷ rest

command-AllBytes :
    (dev : ℕ) (s : ℤ) (rest : List ℕ)
    → dev < 256
    → AllBytes rest
    → AllBytes (command_bytes dev s rest)
command-AllBytes dev s rest h r = (
  omega arith,
  (
    h,
    (
      omega arith,
      (
        omega arith,
        (
          low_byte-lt s,
          (
            low_byte-lt (shift_right s 8),
            (low_byte-lt (shift_right s 16), (low_byte-lt (shift_right s 24), r)),
          ),
        ),
      ),
    ),
  ),
)

-- A command of `Move` has nine bytes, whose exclusive or is 0; it names the device, and its four
-- position bytes stand for exactly the steps asked for, negative ones included.
pub move_lem :
    (dev : ℕ) (s : ℤ)
    → dev < 256
    → IsInt32 s
    → (length (move dev s) ≡ 9)
      × AllBytes (move dev s)
      × (get_or (move dev s) 1 0 ≡ dev)
      × (position (move dev s) ≡ s)
      × (calculate_checksum (move dev s) 9 ≡ 0)
unfolding move
move_lem dev s h range =
    let cmd = command_bytes dev s [] in
    let sum = calculate_checksum cmd 8 in
    let whole =
      command-AllBytes dev s (sum ∷ []) h
        (checksum-lt cmd 8 (command-AllBytes dev s [] h tt), tt) in
    (
      refl,
      whole,
      refl,
      position-word (command_bytes dev s (sum ∷ [])) whole ∙ word-low_bytes s range,
      bit_xor_self _,
    )

-- What a motor answers from a position: the bytes of a command, an end mark and the checksum.
abbrev pub reply : ℕ → ℤ → List ℕ
reply dev s =
    command_bytes dev s (0xfe ∷ calculate_checksum (command_bytes dev s (0xfe ∷ [])) 9 ∷ [])

-- The buffer holds a whole reply of ten bytes.
pub record IsReply (buf : List ℕ) (len : ℕ) : Type 0 where
  pub whole : len ≡ 10
  pub starts : get_or buf 0 0 ≡ label
  pub ends : get_or buf 8 0 ≡ 0xfe
  pub sums : get_or buf 9 0 ≡ calculate_checksum buf 9

-- The state after a whole reply: the motor that it names is at its position.
abbrev pub located : List ℕ → Motor → Motor
located buf m =
    let dev = get_or buf 1 0 in
    if dev == dev_ir
    then record m { step_ir_cur = position buf }
    else if dev == dev_vis_zoom
    then record m { step_vis_zoom_cur = position buf }
    else if dev == dev_vis_focus
    then record m { step_vis_focus_cur = position buf }
    else m

rejected : (k : ℕ) {m : Motor} {r : ℤ × Motor} → r ≡ (negsuc k, m) → (r.0 ≢ pos 0) × (r.1 ≡ m)
rejected k e = (λ z. cc, cc)

-- `Parse_Move` returns 0 exactly for a whole reply, and then sets the position of the motor that
-- the reply names and of no other; on any error it changes nothing.
pub parse_move_lem :
    (buf : List ℕ) (len : ℕ) (m : Motor)
    → (IsReply buf len × (parse_move buf len m ≡ (pos 0, located buf m)))
      ⊎ ((¬ IsReply buf len)
          × (((parse_move buf len m).0 ≢ pos 0) × ((parse_move buf len m).1 ≡ m)))
unfolding parse_move
parse_move_lem buf len m = elim (Bool-cases (len == 10)) [
  | inr short ↦ inr (λ r. ground (arith, r.whole), rejected 0 (simp short))
  | inl whole ↦ elim (Bool-cases (get_or buf 0 0 == label)) [
    | inr elsewhere ↦ inr (λ r. ground (arith, r.starts), rejected 1 (simp (whole, elsewhere)))
    | inl starts ↦ elim (Bool-cases (get_or buf 8 0 == 0xfe)) [
      | inr open_ended ↦
          inr (λ r. ground (arith, r.ends), rejected 1 (simp (whole, starts, open_ended)))
      | inl ends ↦ elim (Bool-cases (get_or buf 9 0 == calculate_checksum buf (len - 1))) [
        | inr wrong ↦
            inr
              (λ r. ground (arith, r.sums, r.whole), rejected 2 (simp (whole, starts, ends, wrong)))
        | inl sums ↦
            let sums_of : get_or buf 9 0 ≡ calculate_checksum buf 9 = ground arith in
            inl (
              record {
                whole = ground arith;
                starts = ground arith;
                ends = ground arith;
                sums = sums_of;
              },
              simp (whole, starts, ends, sums),
            )
      ]
    ]
  ]
]

corrupted_not-IsReply :
    (buf : List ℕ) (k v : ℕ)
    → IsReply buf 10
    → 10 ≤ length buf
    → k < 10
    → v ≢ get_or buf k 0
    → ¬ IsReply (set buf k v) 10
corrupted_not-IsReply buf k v r long below ne a = elim (Bool-cases (k == 9)) [
  | inl last ↦ ground (
    arith,
    a.sums,
    r.sums,
    get_or-set_self buf 9 v 0,
    checksum_ext (set buf 9 v) buf 9 (λ j h. get_or-set_ne buf 9 j v 0 (omega arith)),
  )
  | inr earlier ↦
      let d : k ≢ 9 = ground arith in
      checksum-set buf 9 k v (omega arith) (omega arith) ne
        (sym a.sums ∙ get_or-set_ne buf k 9 v 0 d ∙ r.sums)
]

-- No change of one byte of a reply, whichever it is, gives a buffer that `Parse_Move` accepts: the
-- positions stay as they were.
pub corrupted_rejected :
    (buf : List ℕ) (k v : ℕ) (m : Motor)
    → IsReply buf 10
    → 10 ≤ length buf
    → k < 10
    → v ≢ get_or buf k 0
    → ((parse_move (set buf k v) 10 m).0 ≢ pos 0) × ((parse_move (set buf k v) 10 m).1 ≡ m)
corrupted_rejected buf k v m r long below ne = elim (parse_move_lem (set buf k v) 10 m) [
  | inr (_, refused) ↦ refused
  | inl (accepted, _) ↦ absurd (corrupted_not-IsReply buf k v r long below ne accepted)
]

pub reply-IsReply : (dev : ℕ) (s : ℤ) → IsReply (reply dev s) 10
unfolding calculate_checksum
reply-IsReply dev s = record { whole = refl; starts = refl; ends = refl; sums = refl }

position-reply : (dev : ℕ) (s : ℤ) → dev < 256 → IsInt32 s → position (reply dev s) ≡ s
position-reply dev s h range =
    let frame = command_bytes dev s (0xfe ∷ []) in
    position-word (reply dev s) (
      command-AllBytes dev s (0xfe ∷ calculate_checksum frame 9 ∷ []) h (
        omega arith,
        (checksum-lt frame 9 (command-AllBytes dev s (0xfe ∷ []) h (omega arith, tt)), tt),
      ))
    ∙ word-low_bytes s range

parse_move-reply :
    (dev : ℕ) (s : ℤ) (m : Motor) → parse_move (reply dev s) 10 m ≡ (pos 0, located (reply dev s) m)
parse_move-reply dev s m = elim (parse_move_lem (reply dev s) 10 m) [
  | inl (_, e) ↦ e
  | inr (refused, _) ↦ absurd (refused (reply-IsReply dev s))
]

-- A reply with position `s` from one of the three motors is taken up whole: that motor is then at
-- `s`, and the others are where they were.
pub receive-reply :
    (s : ℤ) (m : Motor)
    → IsInt32 s
    → (receive (reply dev_ir s) 10 m ≡ (pos 0, record m { step_ir_cur = s }))
      × (receive (reply dev_vis_zoom s) 10 m ≡ (pos 0, record m { step_vis_zoom_cur = s }))
      × (receive (reply dev_vis_focus s) 10 m ≡ (pos 0, record m { step_vis_focus_cur = s }))
unfolding receive
receive-reply s m range = (
  parse_move-reply dev_ir s m
      ∙ ap (λ p. (pos 0, record m { step_ir_cur = p }))
          (position-reply dev_ir s (omega arith) range),
  parse_move-reply dev_vis_zoom s m
      ∙ ap (λ p. (pos 0, record m { step_vis_zoom_cur = p }))
          (position-reply dev_vis_zoom s (omega arith) range),
  parse_move-reply dev_vis_focus s m
      ∙ ap (λ p. (pos 0, record m { step_vis_focus_cur = p }))
          (position-reply dev_vis_focus s (omega arith) range),
)
