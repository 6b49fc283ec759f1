-- ===== src/Dvp/Laws.antt =====
-- Every mode is consistent, what is mapped is what is unmapped, and each buffer goes back.
use pre.Dvp.{mode_640, mode_320, Dvp, of_640, of_320, init_dvp, dvp_mode}
use pre.Dvp.Buffers.{
  Buffer, Outcome, done, exited, MapReply, map_buffers, dvp_mmap, InitReplies, dvp_init_device,
  munmap_from, dvp_munmap, filled, Round, Event, taken, sent, queued, dvp_capture,
}
use pre.Prelude.{
  ◌==◌, if◌then◌else◌, if_cases, length, length-append, ℕ, ◌*◌, ◌≤◌, ◌<◌, ◌≡◌, refl, ◌⊎◌, inl, inr,
  Bool, Option, none, some, List, [], ◌∷◌, ◌++◌, arith,
}
use pre.Prelude.Int.{ℤ, pos, negsuc}

-- A picture of the mode, 16 bits a pixel, lies within a buffer of the capture size, 8 bits a pixel, and
-- within the frames that `Init_Frame_Sync_DVP` allocates, which are of 640 by 512.
pub record IsMode (d : Dvp) : Type 0 where
  pub captured : d.valid_width * d.valid_height * 2 ≤ d.capture_width * d.capture_height
  pub allocated : d.valid_width * d.valid_height ≤ 640 * 512
  pub wide : d.capture_width ≡ 2 * d.valid_width

of_640-IsMode : IsMode of_640
of_640-IsMode = record { captured = omega arith; allocated = omega arith; wide = refl }

of_320-IsMode : IsMode of_320
of_320-IsMode = record { captured = omega arith; allocated = omega arith; wide = refl }

-- The device starts in a consistent mode, and `DVP_Mode` keeps it so: it returns 0 for the two modes and
-- is then in the mode asked for, or returns -1 and changes nothing.
pub dvp_mode_lem :
    (mode : ℤ) (d : Dvp)
    → IsMode d
    → IsMode init_dvp
      × IsMode ((dvp_mode mode d).1)
      × ((((dvp_mode mode d).0 ≡ pos 0) × (mode ≡ pos ((dvp_mode mode d).1.mode)))
          ⊎ (dvp_mode mode d ≡ (negsuc 0, d)))
unfolding dvp_mode
dvp_mode_lem (negsuc k) d h = (of_640-IsMode, h, inr refl)
dvp_mode_lem (pos m) d h = (
  of_640-IsMode,
  if_cases {A = ℤ × Dvp} (λ r. IsMode (r.1)) (m == mode_640) _ _ (λ e. of_640-IsMode)
      (λ e.
        if_cases {A = ℤ × Dvp} (λ r. IsMode (r.1)) (m == mode_320) _ _ (λ e'. of_320-IsMode)
          (λ e'. h)),
  ground arith,
)

-- The buffers of the driver's answers.
abbrev pub granted : List MapReply → List (Option ℕ × ℕ)
granted [] = []
granted (r ∷ rs) = (r.mapped, r.length) ∷ granted rs

abbrev pub held : List Buffer → List (Option ℕ × ℕ)
held [] = []
held (b ∷ bs) = (some b.start, b.length) ∷ held bs

Outcome-cases : {A : Type 0} (o : Outcome A) → (o ≡ exited) ⊎ ((a : A) × (o ≡ done a))
Outcome-cases exited = inl refl
Outcome-cases (done a) = inr (a, refl)

map_buffers_lem :
    (rs : List MapReply) (bs : List Buffer) → map_buffers rs ≡ done bs → held bs ≡ granted rs
unfolding map_buffers
map_buffers_lem [] bs h = ground arith
map_buffers_lem (r ∷ rs) bs h = elim (Outcome-cases (map_buffers rs)) [
  | inl e ↦ absurd (ground arith)
  | inr (bs', e) ↦ ground (arith, map_buffers_lem rs bs' e)
]

-- Where `DVP_Init_Device` returns, every buffer that the driver granted is mapped, with its length.
pub dvp_init_device_lem :
    (r : InitReplies) (bs : List Buffer) → dvp_init_device r ≡ done bs → held bs ≡ granted r.buffers
unfolding dvp_init_device dvp_mmap
dvp_init_device_lem r bs h = map_buffers_lem r.buffers bs (ground arith)

-- Of five buffers with one length, `DVP_MUNMAP` unmaps exactly these.
pub dvp_munmap_exact :
    (a b c d e n : ℕ)
    → dvp_munmap (
        record { start = a; length = n }
        ∷ record { start = b; length = n }
        ∷ record { start = c; length = n }
        ∷ record { start = d; length = n }
        ∷ record { start = e; length = n }
        ∷ [])
      ≡ some ((a, n) ∷ (b, n) ∷ (c, n) ∷ (d, n) ∷ (e, n) ∷ [])
unfolding dvp_munmap munmap_from
dvp_munmap_exact a b c d e n = refl

-- Of fewer than five buffers, which a driver may grant, `DVP_MUNMAP` reads past the array.
pub dvp_munmap_short : (bs : List Buffer) → length bs < 5 → dvp_munmap bs ≡ none
unfolding dvp_munmap munmap_from
dvp_munmap_short [] h = refl
dvp_munmap_short (a ∷ []) h = refl
dvp_munmap_short (a ∷ b ∷ []) h = refl
dvp_munmap_short (a ∷ b ∷ c ∷ []) h = refl
dvp_munmap_short (a ∷ b ∷ c ∷ d ∷ []) h = refl
dvp_munmap_short (a ∷ b ∷ c ∷ d ∷ e ∷ bs) h = absurd (omega arith)

-- The driver's queue after some of the loop's calls: taking the first buffer and putting one at the
-- end; none where a buffer is taken that is not first.
abbrev pub driver : List ℕ → List Event → Option (List ℕ)
driver q [] = some q
driver q (sent i ∷ log) = driver q log
driver q (queued i ∷ log) = driver (q ++ i ∷ []) log
driver [] (taken i ∷ log) = none
driver (j ∷ q) (taken i ∷ log) = let rest = driver q log in if i == j then rest else none

-- Each answer of the driver is the buffer that is first in its queue.
pub data Fills : List ℕ → List Round → Type 0 where
  ends : {q : List ℕ} → Fills q []
  fills :
      {i : ℕ} {q : List ℕ} {rs : List Round} (ok : Bool)
      → Fills (q ++ i ∷ []) rs
      → Fills (i ∷ q) (record { dequeued = filled i; queue_ok = ok } ∷ rs)

-- Where the driver fills the buffers in the order of its queue and the loop does not end the program,
-- the driver again has as many buffers as before: the loop loses none.
pub dvp_capture_keeps :
    (q : List ℕ) (rs : List Round) (index : ℕ) (log : List Event)
    → Fills q rs
    → dvp_capture rs index ≡ done log
    → (q' : List ℕ) × (driver q log ≡ some q') × (length q' ≡ length q)
unfolding dvp_capture
dvp_capture_keeps q [] index log ends h = (q, ground arith, refl)
dvp_capture_keeps [] (r ∷ rs) index log f h = elim f [ ]
dvp_capture_keeps (i ∷ q) (r ∷ rs) index log (fills ok f) h =
    elim (Outcome-cases (dvp_capture rs i)) [
      | inl e ↦ absurd (ground arith)
      | inr (log', e) ↦
          let (q', d, l) = dvp_capture_keeps (q ++ i ∷ []) rs i log' f e in
          (q', ground arith, ground (arith, length-append q (i ∷ [])))
    ]
