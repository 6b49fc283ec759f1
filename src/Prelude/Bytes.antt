-- ===== src/Prelude/Bytes.antt =====
-- Fixed-width unsigned words as native numbers: a cast wraps by `%`.
use Prim.Native.Nat.{ℕ, ◌%◌, ◌^◌}

abbrev pub u16 : ℕ → ℕ
u16 n = n % 2 ^ 16
