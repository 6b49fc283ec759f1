-- ===== src/Uart/Laws.antt =====
-- The line is set as asked or not at all; what is sent is the whole text or a part from its start.
use pre.Uart.{
  Termios, raw_line, set_bits, set_parity, set_speed, set_stop, set_opt, OpenReplies, open_device,
  uart_init, uart_exit,
}
use pre.Uart.Line.{
  new_uart, start, stop, WriteReply, wrote, interrupted, broken, send_loop, send, ReadReply, bytes,
  nothing, again, failed, listen,
}
use pre.Prelude.{
  leb, ◌==◌, if◌then◌else◌, tests, Bool-cases, Option-cases, if_cases, length, take, take-add,
  take_le, ℕ, ◌+◌, ◌≤◌, ◌<◌, ◌≡◌, refl, sym, subst, ◌⊎◌, inl, inr, Bool, true, false, ◌&&◌, ◌||◌,
  Option, none, some, List, [], ◌∷◌, ◌++◌, arith,
}
use pre.Prelude.Int.{pos, negsuc}

-- Eight bits, no parity, one stop bit, and the speed asked for where it is one of five, else 9600.
abbrev pub line_at : ℕ → Termios
line_at baud = record raw_line {
  bits = 8;
  speed =
      if baud == 2400 || baud == 4800 || baud == 9600 || baud == 19200 || baud == 115200
      then baud
      else 9600;
  vmin = 1;
}

-- Where every call succeeds `UART_Init` returns the descriptor that `open` gave, with the line at eight
-- bits, no parity and one stop bit; else it returns a negative status and has not set the line.
pub uart_init_lem :
    (r : OpenReplies) (baud : ℕ)
    → ((fd : ℕ) × (r.fd ≡ some fd) × (uart_init r baud ≡ (pos fd, some fd, some (line_at baud))))
      ⊎ ((k : ℕ) × ((uart_init r baud).0 ≡ negsuc k)
          × ((uart_init r baud).2 ≡ none)
          × ((r.fd ≡ none) ⊎ (r.fcntl_ok && r.tcgetattr_ok && r.tcsetattr_ok ≡ false)))
unfolding uart_init open_device set_opt set_bits set_parity set_speed set_stop
uart_init_lem r baud = elim (Option-cases r.fd) [
  | inl e ↦ inr (0, ground arith, ground arith, inl e)
  | inr (fd, e) ↦ elim (Bool-cases (r.fcntl_ok && r.tcgetattr_ok && r.tcsetattr_ok)) [
    | inl h ↦ inl (fd, e, ground arith)
    | inr h ↦ inr (if r.fcntl_ok then 1 else 0, ground arith, ground arith, inr h)
  ]
]

-- Once `open` has given a descriptor, `UART_Init` leaves it open whatever it returns, failures included.
pub uart_init_leak :
    (r : OpenReplies) (baud fd : ℕ) → r.fd ≡ some fd → (uart_init r baud).1 ≡ some fd
unfolding uart_init open_device set_opt
uart_init_leak r baud fd h = ground arith

started :
    (r : OpenReplies) (baud fd : ℕ)
    → r.fd ≡ some fd
    → (start r baud new_uart).0 ≡ true
    → (start r baud new_uart).1 ≡ record { fd = pos fd; running = true }
unfolding start uart_init open_device set_opt
started r baud fd h ok = ground arith

-- A `Start` of a new line that succeeds and the `Stop` after it close exactly the descriptor that was
-- opened; the line is then as new, and a second `Stop` closes nothing.
pub start-stop :
    (r : OpenReplies) (baud fd : ℕ)
    → r.fd ≡ some fd
    → (start r baud new_uart).0 ≡ true
    → (stop ((start r baud new_uart).1) ≡ (new_uart, some fd)) × (stop new_uart ≡ (new_uart, none))
unfolding start stop uart_init open_device set_opt uart_exit
start-stop r baud fd h ok =
    (subst (λ u. stop u ≡ (new_uart, some fd)) (sym (started r baud fd h ok)) refl, refl)

-- `write` never takes more than it is given: the replies from `total` on.
abbrev pub Fits : ℕ → ℕ → List WriteReply → Type 0
Fits size total [] = 0 ≤ 0
Fits size total (interrupted ∷ rs) = Fits size total rs
Fits size total (broken ∷ rs) = Fits size total rs
Fits size total (wrote n ∷ rs) = (total + n ≤ size) × Fits size (total + n) rs

-- What `send_loop` may end with.
pub data IsSent (payload : List ℕ) : Option (Bool × List ℕ) → Type 0 where
  unfinished : IsSent payload none
  whole : IsSent payload (some (true, payload))
  part : (k : ℕ) → k < length payload → IsSent payload (some (false, take k payload))

sent_whole :
    (payload : List ℕ) (total : ℕ)
    → length payload ≤ total
    → IsSent payload (some (true, take total payload))
sent_whole payload total h =
    subst (λ l. IsSent payload (some (true, l))) (sym (take_le total payload h)) whole

send_loop_lem :
    (rs : List WriteReply) (payload : List ℕ) (total : ℕ)
    → total ≤ length payload
    → Fits (length payload) total rs
    → IsSent payload (send_loop rs payload total (take total payload))
unfolding send_loop
send_loop_lem [] payload total le fits =
    if_cases (IsSent payload) (leb (length payload) total) _ _
      (λ h. sent_whole payload total (omega (tests))) (λ h. unfinished)
send_loop_lem (interrupted ∷ rs) payload total le fits =
    if_cases (IsSent payload) (leb (length payload) total) _ _
      (λ h. sent_whole payload total (omega (tests))) (λ h. send_loop_lem rs payload total le fits)
send_loop_lem (broken ∷ rs) payload total le fits =
    if_cases (IsSent payload) (leb (length payload) total) _ _
      (λ h. sent_whole payload total (omega (tests))) (λ h. part total (ground arith))
send_loop_lem (wrote n ∷ rs) payload total le (fit, fits) =
    if_cases (IsSent payload) (leb (length payload) total) _ _
      (λ h. sent_whole payload total (omega (tests)))
      (λ h.
        subst (λ l. IsSent payload (send_loop rs payload (total + n) l)) (take-add total n payload)
          (send_loop_lem rs payload (total + n) fit fits))

-- Where `write` never takes more than it is given, `Send` on a running line returns true only with all
-- of the bytes on the line, once and in order, and false only with a proper part from their start.
pub send_lem :
    (rs : List WriteReply) (fd : ℕ) (payload : List ℕ)
    → Fits (length payload) 0 rs
    → IsSent payload (send rs (record { fd = pos fd; running = true }) payload)
unfolding send
send_lem rs fd payload fits = send_loop_lem rs payload 0 (omega arith) fits

-- How many bytes `write` takes in all.
abbrev pub taken : List WriteReply → ℕ
taken [] = 0
taken (interrupted ∷ rs) = taken rs
taken (broken ∷ rs) = taken rs
taken (wrote n ∷ rs) = n + taken rs

abbrev pub IsUnbroken : List WriteReply → Type 0
IsUnbroken [] = 0 ≤ 0
IsUnbroken (interrupted ∷ rs) = IsUnbroken rs
IsUnbroken (broken ∷ rs) = 1 ≤ 0
IsUnbroken (wrote n ∷ rs) = IsUnbroken rs

send_loop_ends :
    (rs : List WriteReply) (payload : List ℕ) (total : ℕ)
    → total ≤ length payload
    → Fits (length payload) total rs
    → IsUnbroken rs
    → length payload ≤ total + taken rs
    → send_loop rs payload total (take total payload) ≡ some (true, payload)
unfolding send_loop
send_loop_ends [] payload total le fits u enough = ground (arith, take_le total payload)
send_loop_ends (interrupted ∷ rs) payload total le fits u enough =
    ground (arith, take_le total payload, send_loop_ends rs payload total le fits u enough)
send_loop_ends (broken ∷ rs) payload total le fits u enough = absurd (omega arith)
send_loop_ends (wrote n ∷ rs) payload total le (fit, fits) u enough = ground (
  arith,
  take_le total payload,
  take-add total n payload,
  send_loop_ends rs payload (total + n) fit fits u (omega arith),
)

-- Where no write fails and all of them together take the bytes, `Send` on a running line ends, with
-- true and the bytes on the line, however often a signal interrupts it.
pub send_ends :
    (rs : List WriteReply) (fd : ℕ) (payload : List ℕ)
    → Fits (length payload) 0 rs
    → IsUnbroken rs
    → length payload ≤ taken rs
    → send rs (record { fd = pos fd; running = true }) payload ≡ some (true, payload)
unfolding send
send_ends rs fd payload fits u enough =
    send_loop_ends rs payload 0 (omega arith) fits u (omega arith)

-- Nothing that is read after an error reaches the callback.
pub listen_error :
    {S : Type 0} (callback : List ℕ → S → S) (before after : List ReadReply) (s : S)
    → listen callback (before ++ failed ∷ after) s ≡ listen callback before s
unfolding listen
listen_error callback [] after s = refl
listen_error callback (bytes b bs ∷ before) after s =
    listen_error callback before after (callback (b ∷ bs) s)
listen_error callback (nothing ∷ before) after s = listen_error callback before after s
listen_error callback (again ∷ before) after s = listen_error callback before after s
listen_error callback (failed ∷ before) after s = refl
