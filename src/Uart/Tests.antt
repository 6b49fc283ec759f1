-- ===== src/Uart/Tests.antt =====
-- A line opened, written and read at concrete inputs, and the theorems where their hypotheses hold.
use pre.Uart.{OpenReplies}
use pre.Uart.Line.{WriteReply, wrote, interrupted, broken, send_loop, send, bytes, failed, listen}
use pre.Uart.Laws.{IsSent, send_lem, send_ends, listen_error}
use pre.Prelude.{ℕ, ◌≡◌, refl, true, false, some, List, [], ◌∷◌, ◌++◌, arith}
use pre.Prelude.Int.{pos}

abbrev opens : OpenReplies
opens = record { fd = some 5; fcntl_ok = true; tcgetattr_ok = true; tcsetattr_ok = true }

-- The line cannot be set.
abbrev not_set : OpenReplies
not_set = record opens { tcsetattr_ok = false }

-- Five bytes in two parts, with a signal between them.
abbrev two_parts : List WriteReply
two_parts = wrote 2 ∷ interrupted ∷ wrote 3 ∷ []

abbrev five : List ℕ
five = 1 ∷ 2 ∷ 3 ∷ 4 ∷ 5 ∷ []

breaks :
    send (wrote 2 ∷ broken ∷ []) (record { fd = pos 5; running = true }) five
    ≡ some (false, 1 ∷ 2 ∷ [])
unfolding send send_loop
breaks = refl

send_lem_example : IsSent five (send two_parts (record { fd = pos 5; running = true }) five)
send_lem_example = send_lem two_parts 5 five (omega arith, (omega arith, omega arith))

send_ends_example : send two_parts (record { fd = pos 5; running = true }) five ≡ some (true, five)
send_ends_example =
    send_ends two_parts 5 five (omega arith, (omega arith, omega arith)) (omega arith) (omega arith)

listen_error_example :
    listen (λ b bs. b ++ bs) (bytes 1 [] ∷ failed ∷ bytes 2 [] ∷ []) []
    ≡ listen (λ b bs. b ++ bs) (bytes 1 [] ∷ []) []
listen_error_example = listen_error (λ b bs. b ++ bs) (bytes 1 [] ∷ []) (bytes 2 [] ∷ []) []
