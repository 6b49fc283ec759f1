-- ===== src/Uart/Line.antt =====
-- `class UART` of src/utils/uart/uartclass.cpp.
use pre.Uart.{OpenReplies, uart_init, uart_exit}
use pre.Prelude.{
  leb, if◌then◌else◌, length, take, drop, ℕ, ◌+◌, Bool, true, false, not, Option, none, some, List,
  [], ◌∷◌, ◌++◌,
}
use pre.Prelude.Int.{ℤ, pos, negsuc}

-- `m_fd` and `m_running`
pub record Uart : Type 0 where
  pub fd : ℤ
  pub running : Bool

-- The constructor.
abbrev pub new_uart : Uart
new_uart = record { fd = negsuc 0; running = false }

-- `UART::Start`, the thread's creation apart.
unfoldable pub start : OpenReplies → ℕ → Uart → Bool × Uart
unfolding uart_init
start r baudrate u = if u.running then (false, u) else opened ((uart_init r baudrate).0)
  where
    opened : ℤ → Bool × Uart
    opened (negsuc k) = (false, record u { fd = negsuc k })
    opened (pos n) = (true, record { fd = pos n; running = true })

-- `UART::Stop`: the state, and the descriptor that it closes.
unfoldable pub stop : Uart → Uart × Option ℕ
unfolding uart_exit
stop u = elim u.fd [
  | pos n ↦ (record { fd = negsuc 0; running = false }, uart_exit (pos n))
  | negsuc k ↦ (record { fd = negsuc k; running = false }, none)
]

-- What `write` answers.
pub data WriteReply : Type 0 where
  wrote : ℕ → WriteReply
  interrupted broken : WriteReply

-- The loop of `UART::Send` with `total_written` bytes behind it and `line` on the line; `none` where
-- the replies end before the loop does.
unfoldable pub send_loop : List WriteReply → List ℕ → ℕ → List ℕ → Option (Bool × List ℕ)
send_loop [] payload total line = if leb (length payload) total then some (true, line) else none
send_loop (reply ∷ replies) payload total line =
    if leb (length payload) total then some (true, line) else elim reply [
      | interrupted ↦ send_loop replies payload total line
      | broken ↦ some (false, line)
      | wrote n ↦ send_loop replies payload (total + n) (line ++ take n (drop total payload))
    ]

-- `UART::Send`: what it returns and the bytes that are on the line.
unfoldable pub send : List WriteReply → Uart → List ℕ → Option (Bool × List ℕ)
unfolding send_loop
send replies u payload = if not u.running then some (false, []) else on_fd u.fd
  where
    on_fd : ℤ → Option (Bool × List ℕ)
    on_fd (negsuc k) = some (false, [])
    on_fd (pos n) = send_loop replies payload 0 []

-- What `read` answers: bytes, none, no data yet, or an error.
pub data ReadReply : Type 0 where
  bytes : ℕ → List ℕ → ReadReply
  nothing again failed : ReadReply

-- `UART::ListenThread` over what `read` answers while the line runs: what the callback makes of a
-- state that it changes.
unfoldable pub listen : {S : Type 0} → (List ℕ → S → S) → List ReadReply → S → S
listen callback [] s = s
listen callback (reply ∷ replies) s = elim reply [
  | bytes b bs ↦ listen callback replies (callback (b ∷ bs) s)
  | nothing ↦ listen callback replies s
  | again ↦ listen callback replies s
  | failed ↦ s
]
