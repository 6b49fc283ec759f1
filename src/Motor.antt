-- ===== src/Motor.antt =====
-- The lens motors behind the serial line: `class Motor` of src/utils/uart/motor.cpp and motor.h.
-- A command is the list of bytes that goes to `UART::Send`; a reply is the receive buffer and the
-- number of bytes read into it.
pub mod Checksum
pub mod Continuous
pub mod Protocol
mod Tests
use pre.Prelude.{
  ltb, ◌==◌, if◌then◌else◌, length, get_or, ℕ, zero, suc, ◌+◌, ◌-◌, ◌*◌, ◌/◌, ◌%◌, ◌^◌, bit_or,
  bit_xor, not, ◌||◌, List, [], ◌∷◌, ◌++◌,
}
use pre.Prelude.Int.{ℤ, pos, negsuc}

-- The label and the devices.
abbrev pub label : ℕ
label = 0x24

abbrev pub dev_ir : ℕ
dev_ir = 0x02

abbrev pub dev_vis_zoom : ℕ
dev_vis_zoom = 0x03

abbrev pub dev_vis_focus : ℕ
dev_vis_focus = 0x04

abbrev pub dev_shutter : ℕ
dev_shutter = 0x06

pub record Motor : Type 0 where
  pub step_ir_cur : ℤ
  pub step_vis_focus_cur : ℤ
  pub step_vis_zoom_cur : ℤ

-- `Calculate_Checksum` at index `i`, with the rounds left.
pub checksum_from : List ℕ → ℕ → ℕ → ℕ → ℕ
checksum_from bytes zero i checksum = checksum
checksum_from bytes (suc left) i checksum =
    checksum_from bytes left (i + 1) (bit_xor checksum (get_or bytes i 0))

unfoldable pub calculate_checksum : List ℕ → ℕ → ℕ
unfolding checksum_from
calculate_checksum bytes length = checksum_from bytes length 0 0

-- `steps >> k` on an int32_t rounds down.
abbrev pub shift_right : ℤ → ℕ → ℤ
shift_right (pos n) k = pos (n / 2 ^ k)
shift_right (negsuc n) k = negsuc (n / 2 ^ k)

-- The low byte, `steps & 0xFF`, of two's complement.
abbrev pub low_byte : ℤ → ℕ
low_byte (pos n) = n % 256
low_byte (negsuc n) = 255 - n % 256

-- What `Move` sends.
unfoldable pub move : ℕ → ℤ → List ℕ
unfolding calculate_checksum
move dev steps =
    let cmd =
      label
      ∷ dev
      ∷ 0x04
      ∷ 0x00
      ∷ low_byte steps
      ∷ low_byte (shift_right steps 8)
      ∷ low_byte (shift_right steps 16)
      ∷ low_byte (shift_right steps 24)
      ∷ [] in
    cmd ++ (calculate_checksum cmd (length cmd) ∷ [])

unfoldable pub move_ir : ℤ → List ℕ
unfolding move
move_ir = move dev_ir

unfoldable pub move_vis_zoom : ℤ → List ℕ
unfolding move
move_vis_zoom = move dev_vis_zoom

unfoldable pub move_vis_focus : ℤ → List ℕ
unfolding move
move_vis_focus = move dev_vis_focus

-- What `Shutter` sends.
unfoldable pub shutter : ℕ → List ℕ
unfolding calculate_checksum
shutter operation =
    let cmd = label ∷ dev_shutter ∷ 0x01 ∷ 0x00 ∷ operation ∷ [] in
    cmd ++ (calculate_checksum cmd (length cmd) ∷ [])

unfoldable pub shutter_open : List ℕ
unfolding shutter
shutter_open = shutter 0x00

unfoldable pub shutter_close : List ℕ
unfolding shutter
shutter_close = shutter 0x02

-- An int32_t with this bit pattern.
abbrev pub signed32 : ℕ → ℤ
signed32 w = if ltb w (2 ^ 31) then pos w else negsuc (2 ^ 32 - w - 1)

-- The position of a reply: four bytes, the lowest first, in the bits of an int32_t.
unfoldable pub position : List ℕ → ℤ
position buf = signed32 (
    bit_or (bit_or (bit_or (get_or buf 4 0) (get_or buf 5 0 * 2 ^ 8)) (get_or buf 6 0 * 2 ^ 16))
      (get_or buf 7 0 * 2 ^ 24))

-- `Parse_Move`
unfoldable pub parse_move : List ℕ → ℕ → Motor → ℤ × Motor
parse_move buf len m =
    let dev = get_or buf 1 0 in
    let tmp = position buf in
    if not (len == 10)
    then (negsuc 0, m)
    else if not (get_or buf 0 0 == label) || not (get_or buf 8 0 == 0xfe)
    then (negsuc 1, m)
    else if not (get_or buf 9 0 == calculate_checksum buf (len - 1))
    then (negsuc 2, m)
    else (
      pos 0,
      if dev == dev_ir
          then record m { step_ir_cur = tmp }
          else if dev == dev_vis_zoom
          then record m { step_vis_zoom_cur = tmp }
          else if dev == dev_vis_focus
          then record m { step_vis_focus_cur = tmp }
          else m,
    )

-- `Parse_Shutter`
unfoldable pub parse_shutter : List ℕ → ℕ → Motor → ℤ × Motor
parse_shutter buf len m = (pos 0, m)

-- The callback that the constructor installs. It looks at the first two bytes of the buffer
-- whatever `len` is.
unfoldable pub receive : List ℕ → ℕ → Motor → ℤ × Motor
receive buf len m =
    let dev = get_or buf 1 0 in
    if not (get_or buf 0 0 == label)
    then (negsuc 0, m)
    else if dev == 0x02 || dev == 0x03 || dev == 0x04
    then parse_move buf len m
    else if dev == 0x06
    then parse_shutter buf len m
    else (negsuc 1, m)

-- `Get_Step_IR_Cur`
unfoldable pub get_step_ir_cur : Motor → ℤ
get_step_ir_cur m = m.step_ir_cur
