-- ===== src/Prelude/Bits.antt =====
-- Laws of `bit_or` on disjoint fields and of `bit_xor`, from one equation for the lowest digit.
use Prim.Native.Nat.{ℕ, zero, suc, ◌+◌, ◌*◌, ◌/◌, ◌%◌, ◌^◌, ◌≤◌, ◌<◌, max, bit_or, bit_xor}
use Prim.Native.Nat.{digits, bitwise, differ, bit_or-bitwise, bit_xor-bitwise}
use mathlib.Core.Path.{◌≡◌, refl, sym, ap, ◌∙◌}
use native.Mathlib.Nat.{pow-suc}
use native.Mathlib.Omega.{arith}

module _ (z : ℕ → ℕ) (f : ℕ → ℕ → ℕ) where
  digits-zero : (k b : ℕ) → digits z f k zero b ≡ z b
  digits-zero zero b = refl
  digits-zero (suc k) b = refl

  fuel_irrelevant : (k l a b : ℕ) → a ≤ k → a ≤ l → digits z f k a b ≡ digits z f l a b
  fuel_irrelevant k l zero b p q = digits-zero k b ∙ sym (digits-zero l b)
  fuel_irrelevant zero l (suc a) b p q = absurd (omega arith)
  fuel_irrelevant (suc k) zero (suc a) b p q = absurd (omega arith)
  fuel_irrelevant (suc k) (suc l) (suc a) b p q =
      ap (λ r. r * 2 + f (suc a % 2) (b % 2))
        (fuel_irrelevant k l (suc a / 2) (b / 2) (omega arith) (omega arith))

  lowest :
      (a b : ℕ)
      → bitwise z f (suc a) b ≡ bitwise z f (suc a / 2) (b / 2) * 2 + f (suc a % 2) (b % 2)
  lowest a b =
      ap (λ r. r * 2 + f (suc a % 2) (b % 2))
        (fuel_irrelevant a (suc a / 2) (suc a / 2) (b / 2) (omega arith) (omega arith))

zero-bit_or : (b : ℕ) → bit_or 0 b ≡ b
zero-bit_or b = bit_or-bitwise 0 b

zero-bit_xor : (b : ℕ) → bit_xor 0 b ≡ b
zero-bit_xor b = bit_xor-bitwise 0 b

pub bit_or_step : (a b : ℕ) → bit_or a b ≡ bit_or (a / 2) (b / 2) * 2 + max (a % 2) (b % 2)
bit_or_step zero b = omega (arith, zero-bit_or b, zero-bit_or (b / 2))
bit_or_step (suc a) b =
    omega
      (arith, lowest (λ y. y) max a b, bit_or-bitwise (suc a) b, bit_or-bitwise (suc a / 2) (b / 2))

differ-zero : (y : ℕ) → differ 0 y ≡ y
differ-zero y = refl

pub bit_xor_step : (a b : ℕ) → bit_xor a b ≡ bit_xor (a / 2) (b / 2) * 2 + differ (a % 2) (b % 2)
bit_xor_step zero b = omega (arith, zero-bit_xor b, zero-bit_xor (b / 2), differ-zero (b % 2))
bit_xor_step (suc a) b = omega (
  arith,
  lowest (λ y. y) differ a b,
  bit_xor-bitwise (suc a) b,
  bit_xor-bitwise (suc a / 2) (b / 2),
)

-- `lo | (hi << k)` is a sum when `lo` fits `k` bits.
pub bit_or_fields : (k lo hi : ℕ) → lo < 2 ^ k → bit_or lo (hi * 2 ^ k) ≡ lo + hi * 2 ^ k
bit_or_fields zero lo hi fits = let e : lo ≡ 0 = omega arith in rw (e, zero-bit_or) (omega arith)
bit_or_fields (suc k) lo hi fits = ground (
  arith,
  bit_or_step lo (hi * 2 ^ suc k),
  ap (λ (p : ℕ). hi * p) (pow-suc 2 k),
  bit_or_fields k (lo / 2) hi (omega (arith, pow-suc 2 k)),
)

-- The exclusive or of two bits, by its table.
differ_bits : (x y : ℕ) → x < 2 → y < 2 → differ x y ≡ (x + y) % 2
differ_bits zero zero hx hy = refl
differ_bits zero (suc zero) hx hy = refl
differ_bits zero (suc (suc y)) hx hy = absurd (omega arith)
differ_bits (suc zero) zero hx hy = refl
differ_bits (suc zero) (suc zero) hx hy = refl
differ_bits (suc zero) (suc (suc y)) hx hy = absurd (omega arith)
differ_bits (suc (suc x)) y hx hy = absurd (omega arith)

bit_xor_bit : (a b : ℕ) → bit_xor a b ≡ bit_xor (a / 2) (b / 2) * 2 + (a % 2 + b % 2) % 2
bit_xor_bit a b =
    omega (arith, bit_xor_step a b, differ_bits (a % 2) (b % 2) (omega arith) (omega arith))

halve :
    (n a c : ℕ) → bit_xor (bit_xor (a / 2) (c / 2)) (c / 2) ≡ a / 2 → bit_xor (bit_xor a c) c ≡ a
halve n a c ih = ground (arith, bit_xor_bit a c, bit_xor_bit (bit_xor a c) c)

-- Exclusive or with the same number twice gives the first one back.
cancel_right_below : (n a c : ℕ) → a + c ≤ n → bit_xor (bit_xor a c) c ≡ a
cancel_right_below zero a c h =
    let e : a ≡ 0 = omega arith in let e' : c ≡ 0 = omega arith in rw (e, e', zero-bit_xor)
cancel_right_below (suc n) zero zero h = rw zero-bit_xor
cancel_right_below (suc n) zero (suc c) h =
    halve n zero (suc c) (cancel_right_below n 0 (suc c / 2) (omega arith))
cancel_right_below (suc n) (suc a) c h =
    halve n (suc a) c (cancel_right_below n (suc a / 2) (c / 2) (omega arith))

pub bit_xor_cancel_right : (a c : ℕ) → bit_xor (bit_xor a c) c ≡ a
bit_xor_cancel_right a c = cancel_right_below (a + c) a c (omega arith)

comm_below : (n a b : ℕ) → a + b ≤ n → bit_xor a b ≡ bit_xor b a
comm_below zero a b h = let e : a ≡ 0 = omega arith in let e' : b ≡ 0 = omega arith in rw (e, e')
comm_below (suc n) zero zero h = refl
comm_below (suc n) zero (suc b) h =
    ground (
      arith,
      bit_xor_bit 0 (suc b),
      bit_xor_bit (suc b) 0,
      comm_below n 0 (suc b / 2) (omega arith),
    )
comm_below (suc n) (suc a) b h = ground (
  arith,
  bit_xor_bit (suc a) b,
  bit_xor_bit b (suc a),
  comm_below n (suc a / 2) (b / 2) (omega arith),
)

pub bit_xor_comm : (a b : ℕ) → bit_xor a b ≡ bit_xor b a
bit_xor_comm a b = comm_below (a + b) a b (omega arith)

-- Exclusive or with a fixed number, on either side, confuses no two numbers.
pub bit_xor_injective_right : (a b c : ℕ) → bit_xor a c ≡ bit_xor b c → a ≡ b
bit_xor_injective_right a b c e =
    sym (bit_xor_cancel_right a c) ∙ ap (λ x. bit_xor x c) e ∙ bit_xor_cancel_right b c

pub bit_xor_injective_left : (c a b : ℕ) → bit_xor c a ≡ bit_xor c b → a ≡ b
bit_xor_injective_left c a b e =
    bit_xor_injective_right a b c (bit_xor_comm a c ∙ e ∙ bit_xor_comm c b)

pub bit_xor_self : (a : ℕ) → bit_xor a a ≡ 0
bit_xor_self a = ap (λ x. bit_xor x a) (sym (zero-bit_xor a)) ∙ bit_xor_cancel_right 0 a

-- It stays within the width of its arguments.
pub bit_xor-lt : (k a b : ℕ) → a < 2 ^ k → b < 2 ^ k → bit_xor a b < 2 ^ k
bit_xor-lt zero a b ha hb =
    let e : a ≡ 0 = omega arith in let e' : b ≡ 0 = omega arith in rw (e, e') (omega arith)
bit_xor-lt (suc k) a b ha hb = ground (
  arith,
  bit_xor_bit a b,
  pow-suc 2 k,
  bit_xor-lt k (a / 2) (b / 2) (omega (arith, pow-suc 2 k)) (omega (arith, pow-suc 2 k)),
)
