-- ===== src/Uart.antt =====
-- The serial line: src/utils/uart/uartwrap.c, which opens and sets it, and `class UART` of
-- src/utils/uart/uartclass.cpp, which sends and receives. What the system answers is an argument.
pub mod Line
pub mod Laws
mod Tests
use pre.Prelude.{◌==◌, if◌then◌else◌, set, ℕ, Bool, true, false, not, ◌||◌, Option, none, some}
use pre.Prelude.Int.{ℤ, pos, negsuc}

-- What `UARTWRAP_SetOpt` sets of a `struct termios`, which it clears first: the flags by their names,
-- the bits of a character, and the speed in bauds.
pub record Termios : Type 0 where
  pub clocal : Bool
  pub cread : Bool
  pub bits : ℕ
  pub parenb : Bool
  pub parodd : Bool
  pub inpck : Bool
  pub istrip : Bool
  pub cstopb : Bool
  pub speed : ℕ
  pub vmin : ℕ
  pub vtime : ℕ

-- The cleared struct past the first lines; CSIZE cleared is five bits.
abbrev pub raw_line : Termios
raw_line = record {
  clocal = true;
  cread = true;
  bits = 5;
  parenb = false;
  parodd = false;
  inpck = false;
  istrip = false;
  cstopb = false;
  speed = 0;
  vmin = 0;
  vtime = 0;
}

unfoldable pub set_bits : ℕ → Termios → Termios
set_bits n t = if n == 7 then record t { bits = 7 } else if n == 8 then record t { bits = 8 } else t

-- 'O', 'E' and 'N'
unfoldable pub set_parity : ℕ → Termios → Termios
set_parity event t =
    if event == 0x4f
    then record t { parenb = true; parodd = true; inpck = true; istrip = true }
    else if event == 0x45
    then record t { parenb = true; parodd = false; inpck = true; istrip = true }
    else if event == 0x4e
    then record t { parenb = false }
    else t

unfoldable pub set_speed : ℕ → Termios → Termios
set_speed baud t =
    if baud == 2400 || baud == 4800 || baud == 9600 || baud == 19200 || baud == 115200
    then record t { speed = baud }
    else record t { speed = 9600 }

unfoldable pub set_stop : ℕ → Termios → Termios
set_stop stop t =
    if stop == 1
    then record t { cstopb = false }
    else if stop == 2
    then record t { cstopb = true }
    else t

-- `UARTWRAP_SetOpt`: the status, and what `tcsetattr` has set.
unfoldable pub set_opt : Bool → Bool → ℕ → ℕ → ℕ → ℕ → ℤ × Option Termios
unfolding set_bits set_parity set_speed set_stop
set_opt tcgetattr_ok tcsetattr_ok baud bits event stop =
    if not tcgetattr_ok
    then (negsuc 0, none)
    else let t = set_stop stop (set_speed baud (set_parity event (set_bits bits raw_line))) in
      if not tcsetattr_ok
      then (negsuc 0, none)
      else (pos 0, some (record t { vmin = 1; vtime = 0 }))

-- What `open` and the calls after it answer; `fd` is none for -1.
pub record OpenReplies : Type 0 where
  pub fd : Option ℕ
  pub fcntl_ok : Bool
  pub tcgetattr_ok : Bool
  pub tcsetattr_ok : Bool

-- `UART_Open_Device`: what it returns, and the descriptor that stays open.
unfoldable pub open_device : OpenReplies → ℤ × Option ℕ
open_device r = elim r.fd [
  | none ↦ (negsuc 0, none)
  | some fd ↦ if not r.fcntl_ok then (negsuc 0, some fd) else (pos fd, some fd)
]

-- `UART_Init`: what it returns, the descriptor that stays open, and the line's settings.
unfoldable pub uart_init : OpenReplies → ℕ → ℤ × Option ℕ × Option Termios
unfolding open_device set_opt
uart_init r baudrate =
    let (fd, opened) = open_device r in
    let (ret, set) = set_opt r.tcgetattr_ok r.tcsetattr_ok baudrate 8 0x4e 1 in
    if is_negative fd
    then (negsuc 0, opened, none)
    else if not (is_zero ret)
    then (negsuc 1, opened, none)
    else (fd, opened, set)
  where
    is_negative : ℤ → Bool
    is_negative (pos n) = false
    is_negative (negsuc n) = true

    is_zero : ℤ → Bool
    is_zero (pos n) = n == 0
    is_zero (negsuc n) = false

-- `UART_Exit`: the descriptor that it closes.
unfoldable pub uart_exit : ℤ → Option ℕ
uart_exit (pos fd) = some fd
uart_exit (negsuc k) = none
