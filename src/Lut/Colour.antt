-- ===== src/Lut/Colour.antt =====
-- The macros RGB2Y, RGB2U and RGB2V of src/config/lut/lut.h. They compute in `int`, where `>>`
-- rounds down, and each result is stored in a `uint8_t`.
use pre.Prelude.{ℕ, ◌+◌, ◌-◌, ◌*◌, ◌/◌, ◌%◌, ◌≤◌, ◌<◌, ◌≡◌, arith}
use pre.Prelude.Int.{ℤ, pos, negsuc, ◌+ℤ◌, ◌-ℤ◌}

-- `>> 8` on an int: division that rounds down.
abbrev pub shr8 : ℤ → ℤ
shr8 (pos n) = pos (n / 256)
shr8 (negsuc n) = negsuc (n / 256)

-- The conversion of an int to `uint8_t`.
abbrev pub to_u8 : ℤ → ℕ
to_u8 (pos n) = n % 256
to_u8 (negsuc n) = 255 - n % 256

unfoldable pub rgb2y : ℕ → ℕ → ℕ → ℤ
rgb2y r g b = shr8 (pos (66 * r + 129 * g + 25 * b + 128)) +ℤ pos 16

unfoldable pub rgb2u : ℕ → ℕ → ℕ → ℤ
rgb2u r g b = shr8 (pos (112 * b + 128) -ℤ pos (38 * r + 74 * g)) +ℤ pos 128

unfoldable pub rgb2v : ℕ → ℕ → ℕ → ℤ
rgb2v r g b = shr8 (pos (112 * r + 128) -ℤ pos (94 * g + 18 * b)) +ℤ pos 128

-- Of bytes the macros give Y from 16 to 235, and U and V from 16 to 240, so the `uint8_t` that
-- stores one holds it unchanged.
pub colour_ranges :
    (r g b : ℕ)
    → r < 256
    → g < 256
    → b < 256
    → (rgb2y r g b ≡ pos (to_u8 (rgb2y r g b)))
      × (16 ≤ to_u8 (rgb2y r g b))
      × (to_u8 (rgb2y r g b) ≤ 235)
      × (rgb2u r g b ≡ pos (to_u8 (rgb2u r g b)))
      × (16 ≤ to_u8 (rgb2u r g b))
      × (to_u8 (rgb2u r g b) ≤ 240)
      × (rgb2v r g b ≡ pos (to_u8 (rgb2v r g b)))
      × (16 ≤ to_u8 (rgb2v r g b))
      × (to_u8 (rgb2v r g b) ≤ 240)
unfolding rgb2y rgb2u rgb2v ◌+ℤ◌ ◌-ℤ◌
colour_ranges r g b hr hg hb = (
  ground arith,
  ground arith,
  ground arith,
  ground arith,
  ground arith,
  ground arith,
  ground arith,
  ground arith,
  ground arith,
)

-- A grey has no colour difference, and a lighter grey has no smaller Y.
pub grey_lem :
    (x y : ℕ)
    → x ≤ y
    → y < 256
    → (rgb2u x x x ≡ pos 128)
      × (rgb2v x x x ≡ pos 128)
      × (to_u8 (rgb2y x x x) ≤ to_u8 (rgb2y y y y))
unfolding rgb2y rgb2u rgb2v ◌+ℤ◌ ◌-ℤ◌
grey_lem x y h hy = (ground arith, ground arith, ground arith)
