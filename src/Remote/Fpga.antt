-- ===== src/Remote/Fpga.antt =====
-- `class FPGA` of src/utils/uart/fpga.cpp: the commands, as the bytes that they build.
use pre.Prelude.{
  ◌>>=◌, get_elem?, set, ℕ, zero, suc, ◌+◌, ◌-◌, ◌%◌, ◌^◌, Option, some, List, [], ◌∷◌,
}

-- The loop of `Calculate_Checksum` from index `i`, with the rounds left: `none` past the end.
unfoldable pub add_from : List ℕ → ℕ → ℕ → ℕ → Option ℕ
add_from cmd zero i checksum = some checksum
add_from cmd (suc left) i checksum = do
  byte ← get_elem? cmd i
  add_from cmd left (i + 1) ((checksum + byte) % 2 ^ 8)

-- `Calculate_Checksum`
unfoldable pub calculate_checksum : List ℕ → ℕ → ℕ → Option ℕ
unfolding add_from
calculate_checksum cmd begin end = add_from cmd (end - begin) begin 0

-- What `NUC` sends.
abbrev pub nuc : List ℕ
nuc =
    0x55 ∷ 0xAA ∷ 0x10 ∷ 0x09 ∷ 0x00 ∷ 0x01 ∷ 0x04 ∷ 0x00 ∷ 0x0A ∷ 0x07 ∷ 0x00 ∷ 0x00 ∷ 0x00 ∷ 0x00
    ∷ 0x1F ∷ 0x00 ∷ []

abbrev pub gas_command : List ℕ
gas_command =
    0x55 ∷ 0xAA ∷ 0x10 ∷ 0x09 ∷ 0x00 ∷ 0x01 ∷ 0x04 ∷ 0x00 ∷ 0x8F ∷ 0x07 ∷ 0x01 ∷ 0x00 ∷ 0x00 ∷ 0x00
    ∷ 0xA5 ∷ 0x00 ∷ []

-- What `Set_Gas_Enhancement` builds from a mode of at least 0, and prints; it sends nothing.
unfoldable pub set_gas_enhancement : ℕ → Option (List ℕ)
unfolding calculate_checksum
set_gas_enhancement mode = do
  let cmd = set gas_command 10 (mode % 2 ^ 8)
  checksum ← calculate_checksum cmd 3 14
  some (set cmd 14 checksum)
