-- ===== src/Prelude/Counting.antt =====
-- How many items of a list pass a test.
use pre.Prelude.{
  ltb, leb, ◌==◌, if◌then◌else◌, Bool-cases, length, All, ℕ, suc, ◌+◌, ◌*◌, ◌/◌, ◌≤◌, ◌≡◌, refl,
  sym, ap, ◌∙◌, inl, inr, Bool, true, false, ◌&&◌, ◌||◌, List, [], ◌∷◌, arith,
}

unfoldable pub count_if : (ℕ → Bool) → List ℕ → ℕ
count_if p [] = 0
count_if p (x ∷ xs) = if p x then suc (count_if p xs) else count_if p xs

pub count_mono :
    (p q : ℕ → Bool) (xs : List ℕ)
    → All (λ v. p v ≡ true → q v ≡ true) xs
    → count_if p xs ≤ count_if q xs
unfolding count_if
count_mono p q [] h = omega arith
count_mono p q (x ∷ xs) (h, hs) =
    let ih = count_mono p q xs hs in
    elim (Bool-cases (p x)) [
      | inl e ↦ ground (arith, e, h e, ih)
      | inr e ↦ elim (Bool-cases (q x)) [
        | inl e' ↦ ground (arith, e, e', ih)
        | inr e' ↦ ground (arith, e, e', ih)
      ]
    ]

-- Two tests that exclude each other and cover a third.
pub count_split :
    (p q r : ℕ → Bool) (xs : List ℕ)
    → ((v : ℕ) → (r v ≡ (p v || q v)) × ((p v && q v) ≡ false))
    → count_if r xs ≡ count_if p xs + count_if q xs
unfolding count_if
count_split p q r [] h = omega arith
count_split p q r (x ∷ xs) h =
    let ih = count_split p q r xs h in
    let (e, e') = h x in
    elim (Bool-cases (p x)) [
      | inl t ↦ ground (arith, e, e', t, ih)
      | inr t ↦ elim (Bool-cases (q x)) [
        | inl t' ↦ ground (arith, e, e', t, t', ih)
        | inr t' ↦ ground (arith, e, e', t, t', ih)
      ]
    ]

pub count_all : (xs : List ℕ) → count_if (λ v. true) xs ≡ length xs
unfolding count_if
count_all [] = refl
count_all (x ∷ xs) = ap suc (count_all xs)

pub All-map : (P Q : ℕ → Type 0) (xs : List ℕ) → ((v : ℕ) → P v → Q v) → All P xs → All Q xs
All-map P Q [] f h = h
All-map P Q (x ∷ xs) f (h, hs) = (f x h, All-map P Q xs f hs)

pub All-zip : (P Q : ℕ → Type 0) (xs : List ℕ) → All P xs → All Q xs → All (λ v. P v × Q v) xs
All-zip P Q [] h k = h
All-zip P Q (x ∷ xs) (h, hs) (k, ks) = ((h, k), All-zip P Q xs hs ks)

-- The items below a bound, from a bound on, and of a bin.
abbrev pub below : ℕ → List ℕ → ℕ
below m xs = count_if (λ v. ltb v m) xs

abbrev pub from : ℕ → List ℕ → ℕ
from m xs = count_if (λ v. leb m v) xs

abbrev pub in_bin : ℕ → List ℕ → ℕ
in_bin b xs = count_if (λ v. v / 256 == b) xs

pub below-from : (m : ℕ) (xs : List ℕ) → length xs ≡ below m xs + from m xs
below-from m xs =
    sym (count_all xs)
    ∙ count_split (λ v. ltb v m) (λ v. leb m v) (λ v. true) xs (λ v. (ground arith, ground arith))

pub below-suc : (b : ℕ) (xs : List ℕ) → below ((b + 1) * 256) xs ≡ below (b * 256) xs + in_bin b xs
below-suc b xs =
    count_split (λ v. ltb v (b * 256)) (λ v. v / 256 == b) (λ v. ltb v ((b + 1) * 256)) xs
      (λ v. (ground arith, ground arith))

pub below_zero : (xs : List ℕ) → below 0 xs ≡ 0
unfolding count_if
below_zero [] = refl
below_zero (x ∷ xs) = ground (arith, below_zero xs)

pub below_mono : (m n : ℕ) (xs : List ℕ) → m ≤ n → below m xs ≤ below n xs
below_mono m n xs h = count_mono (λ v. ltb v m) (λ v. ltb v n) xs (always xs)
  where
    always : (ys : List ℕ) → All (λ v. ltb v m ≡ true → ltb v n ≡ true) ys
    always [] = tt
    always (y ∷ ys) = (λ t. ground (arith, t), always ys)
