-- ===== src/Remote/FpgaLaws.antt =====
-- The frames that `class FPGA` builds.
use pre.Remote.Fpga.{add_from, calculate_checksum, set_gas_enhancement}
use pre.Prelude.{length, get_elem?, ℕ, ◌+◌, ◌%◌, ◌≡◌, refl, ap, some, List, arith}

-- For every mode `Set_Gas_Enhancement` builds a frame of 16 bytes without an access out of range, with
-- the mode, wrapped to a byte, at its index, and with the sum of the bytes 3 to 13 that
-- `Calculate_Checksum` gives of the finished frame.
pub set_gas_enhancement-checksum :
    (mode : ℕ)
    → (cmd : List ℕ) × (set_gas_enhancement mode ≡ some cmd)
      × (length cmd ≡ 16)
      × (get_elem? cmd 10 ≡ some (mode % 256))
      × (calculate_checksum cmd 3 14 ≡ get_elem? cmd 14)
      × (get_elem? cmd 14 ≡ some ((164 + mode) % 256))
unfolding set_gas_enhancement calculate_checksum add_from
set_gas_enhancement-checksum mode = (_, refl, refl, refl, refl, ap (λ n. some n) (omega arith))
