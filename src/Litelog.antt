-- ===== src/Litelog.antt =====
-- The log client of src/utils/log/litelog.c and litelog.h: a UDP socket, and packets made of a level,
-- the program's name and a text. What the system answers is an argument; texts are lists of bytes
-- without the final NUL.
pub mod Client
pub mod Port
pub mod Laws
mod Tests
use pre.Prelude.{
  ltb, ◌==◌, if◌then◌else◌, ℕ, zero, suc, ◌+◌, ◌*◌, ◌/◌, ◌%◌, Bool, false, Option, none, some,
}
use pre.Prelude.Int.{ℤ, pos, negsuc}
use pre.Prelude.Bytes.{u16}

-- `struct Litelog_Socket_Wrap`: the descriptor (-1 is none) and the port of its address.
pub record SocketWrap : Type 0 where
  pub device : ℤ
  pub self_port : ℕ

-- `Litelog_Socket_Open_Device`; `fd` is what `socket` returns.
unfoldable pub open_device : ℤ → SocketWrap → ℤ × SocketWrap
open_device (pos fd) s = (pos 0, record s { device = pos fd })
open_device (negsuc zero) s = (negsuc 0, record s { device = negsuc 0 })
open_device (negsuc (suc k)) s = (pos 0, record s { device = negsuc (suc k) })

-- What `bind` answers for a port.
pub data BindReply : Type 0 where
  bound in_use refused : BindReply

-- The next port that `Litelog_Socket_Bind_Target` tries, in a `uint16_t`.
unfoldable pub next_port : ℕ → ℕ
next_port port = let p = u16 (port + 1) in if ltb 65535 p then 60000 else p

-- `Litelog_Socket_Bind_Target` on fuel: the status and the port. `bind` answers by the port.
unfoldable pub bind_target : (ℕ → BindReply) → ℕ → ℕ → Option (ℤ × ℕ)
bind_target bind zero port = none
bind_target bind (suc fuel) port = elim (bind port) [
  | bound ↦ some (pos 0, port)
  | refused ↦ some (negsuc 0, port)
  | in_use ↦ bind_target bind fuel (next_port port)
]

-- `Litelog_Socket_Init`
unfoldable pub socket_init : ℤ → (ℕ → BindReply) → ℕ → ℕ → SocketWrap → Option (ℤ × SocketWrap)
unfolding open_device bind_target
socket_init fd bind fuel port s =
    let (ret, opened) = open_device fd s in
    if is_zero ret then bound_to opened (bind_target bind fuel port) else some (negsuc 0, opened)
  where
    is_zero : ℤ → Bool
    is_zero (pos n) = n == 0
    is_zero (negsuc n) = false

    bound_to : SocketWrap → Option (ℤ × ℕ) → Option (ℤ × SocketWrap)
    bound_to opened none = none
    bound_to opened (some (r, p)) =
        some (if is_zero r then pos 0 else negsuc 1, record opened { self_port = p })

-- `Litelog_Socket_Exit`: the wrapper after it, and the descriptor that it closes.
unfoldable pub socket_exit : SocketWrap → SocketWrap × Option ℤ
socket_exit s = elim s.device [
  | negsuc zero ↦ (s, none)
  | negsuc (suc k) ↦ (record s { device = negsuc 0 }, some (negsuc (suc k)))
  | pos fd ↦ (record s { device = negsuc 0 }, some (pos fd))
]

-- The time limit of `Litelog_Socket_Recv`: seconds and microseconds; `none` waits for ever.
unfoldable pub recv_limit : ℤ → Option (ℕ × ℕ)
recv_limit (negsuc k) = none
recv_limit (pos ms) = if ltb 0 ms then some (ms / 1000, ms % 1000 * 1000) else none

-- What `select` answers.
pub data SelectReply : Type 0 where
  failed timed_out ready : SelectReply

-- `Litelog_Socket_Recv`; `received` is what `recvfrom` returns.
unfoldable pub socket_recv : SelectReply → ℤ → ℤ
socket_recv failed received = negsuc 0
socket_recv timed_out received = negsuc 1
socket_recv ready received = received
