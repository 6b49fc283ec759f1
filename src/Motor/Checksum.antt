-- ===== src/Motor/Checksum.antt =====
-- The exclusive-or checksum of src/utils/uart/motor.cpp: it is a byte, and it catches every change
-- of a single byte.
use pre.Prelude.{
  ◌==◌, Bool-cases, length, set, get_or, get_or-set_self, get_or-set_ne, ℕ, zero, suc, ◌+◌, ◌≤◌,
  ◌<◌, bit_xor, ◌≡◌, refl, sym, ap, subst, ◌∙◌, ◌≢◌, inl, inr, List, [], ◌∷◌, arith,
}
use pre.Prelude.Bits.{bit_xor_injective_right, bit_xor_injective_left, bit_xor-lt}
use pre.Motor.{checksum_from, calculate_checksum}

abbrev pub AllBytes : List ℕ → Type 0
AllBytes [] = Unit {0}
AllBytes (x ∷ xs) = (x < 256) × AllBytes xs

pub byte-lt : (bytes : List ℕ) (i : ℕ) → AllBytes bytes → get_or bytes i 0 < 256
byte-lt [] i b = omega arith
byte-lt (x ∷ xs) zero b = b.0
byte-lt (x ∷ xs) (suc i) b = byte-lt xs i b.1

checksum_from-lt :
    (bytes : List ℕ) (left i acc : ℕ)
    → AllBytes bytes
    → acc < 256
    → checksum_from bytes left i acc < 256
unfolding checksum_from
checksum_from-lt bytes zero i acc b h = h
checksum_from-lt bytes (suc left) i acc b h =
    checksum_from-lt bytes left (i + 1) (bit_xor acc (get_or bytes i 0)) b
      (bit_xor-lt 8 acc (get_or bytes i 0) h (byte-lt bytes i b))

pub checksum-lt : (bytes : List ℕ) (n : ℕ) → AllBytes bytes → calculate_checksum bytes n < 256
unfolding calculate_checksum
checksum-lt bytes n b = checksum_from-lt bytes n 0 0 b (omega arith)

-- Where two buffers agree from index `i` on, different sums so far stay different.
checksum_from_ne :
    (xs ys : List ℕ) (left i acc acc' : ℕ)
    → ((j : ℕ) → i ≤ j → j < i + left → get_or xs j 0 ≡ get_or ys j 0)
    → acc ≢ acc'
    → checksum_from xs left i acc ≢ checksum_from ys left i acc'
unfolding checksum_from
checksum_from_ne xs ys zero i acc acc' same ne = ne
checksum_from_ne xs ys (suc left) i acc acc' same ne =
    checksum_from_ne xs ys left (i + 1) (bit_xor acc (get_or xs i 0)) (bit_xor acc' (get_or ys i 0))
      (λ j p q. same j (omega arith) (omega arith))
      (λ e. ne (
        bit_xor_injective_right acc acc' (get_or ys i 0)
          (ap (bit_xor acc) (sym (same i (omega arith) (omega arith))) ∙ e)))

-- Buffers that differ at the one index `k` of the range have different sums.
checksum_from_single :
    (xs ys : List ℕ) (left i acc k : ℕ)
    → i ≤ k
    → k < i + left
    → ((j : ℕ) → j ≢ k → get_or xs j 0 ≡ get_or ys j 0)
    → get_or xs k 0 ≢ get_or ys k 0
    → checksum_from xs left i acc ≢ checksum_from ys left i acc
unfolding checksum_from
checksum_from_single xs ys zero i acc k p q same ne = absurd (omega arith)
checksum_from_single xs ys (suc left) i acc k p q same ne = elim (Bool-cases (i == k)) [
  | inl here ↦
      let e : i ≡ k = ground arith in
      checksum_from_ne xs ys left (i + 1) (bit_xor acc (get_or xs i 0))
        (bit_xor acc (get_or ys i 0)) (λ j u v. same j (omega arith))
        (λ x. ne (
          subst (λ m. get_or xs m 0 ≡ get_or ys m 0) e
            (bit_xor_injective_left acc (get_or xs i 0) (get_or ys i 0) x)))
  | inr later ↦
      let d : i ≢ k = ground arith in
      λ x.
        checksum_from_single xs ys left (i + 1) (bit_xor acc (get_or xs i 0)) k (omega arith)
          (omega arith) same ne
          (x ∙ ap (λ b. checksum_from ys left (i + 1) (bit_xor acc b)) (sym (same i d)))
]

-- Changing one byte of the first `n` changes the checksum of the first `n`.
pub checksum-set :
    (bytes : List ℕ) (n k v : ℕ)
    → k < n
    → k < length bytes
    → v ≢ get_or bytes k 0
    → calculate_checksum (set bytes k v) n ≢ calculate_checksum bytes n
unfolding calculate_checksum
checksum-set bytes n k v h below ne =
    checksum_from_single (set bytes k v) bytes n 0 0 k (omega arith) (omega arith)
      (λ j other. get_or-set_ne bytes k j v 0 (λ e. other (sym e)))
      (λ e. ne (sym (get_or-set_self bytes k v 0 below) ∙ e))

checksum_from_ext :
    (xs ys : List ℕ) (left i acc : ℕ)
    → ((j : ℕ) → i ≤ j → j < i + left → get_or xs j 0 ≡ get_or ys j 0)
    → checksum_from xs left i acc ≡ checksum_from ys left i acc
unfolding checksum_from
checksum_from_ext xs ys zero i acc same = refl
checksum_from_ext xs ys (suc left) i acc same =
    ap (λ b. checksum_from xs left (i + 1) (bit_xor acc b)) (same i (omega arith) (omega arith))
    ∙ checksum_from_ext xs ys left (i + 1) (bit_xor acc (get_or ys i 0))
        (λ j p q. same j (omega arith) (omega arith))

pub checksum_ext :
    (xs ys : List ℕ) (n : ℕ)
    → ((j : ℕ) → j < n → get_or xs j 0 ≡ get_or ys j 0)
    → calculate_checksum xs n ≡ calculate_checksum ys n
unfolding calculate_checksum
checksum_ext xs ys n same = checksum_from_ext xs ys n 0 0 (λ j p q. same j (omega arith))
