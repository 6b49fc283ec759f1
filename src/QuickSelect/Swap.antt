-- ===== src/QuickSelect/Swap.antt =====
-- `std::swap` of two elements of an array: what each index then holds, and that no value is lost.
use pre.Prelude.{
  ◌==◌, if◌then◌else◌, Bool-cases, length, set, length-set, get_or, get_or-set_self, get_or-set_ne,
  ℕ, zero, suc, ◌+◌, ◌<◌, ◌≡◌, ◌∙◌, inl, inr, List, [], ◌∷◌, arith,
}

unfoldable pub swap : ℕ → ℕ → List ℕ → List ℕ
swap i j arr = set (set arr i (get_or arr j 0)) j (get_or arr i 0)

pub length-swap : (i j : ℕ) (arr : List ℕ) → length (swap i j arr) ≡ length arr
unfolding swap
length-swap i j arr =
    length-set (set arr i (get_or arr j 0)) j (get_or arr i 0) ∙ length-set arr i (get_or arr j 0)

-- The index from which `swap i j` takes what it puts at `k`.
abbrev pub partner : ℕ → ℕ → ℕ → ℕ
partner i j k = if k == j then i else if k == i then j else k

pub get_or-swap :
    (i j k : ℕ) (arr : List ℕ)
    → i < length arr
    → j < length arr
    → get_or (swap i j arr) k 0 ≡ get_or arr (partner i j k) 0
unfolding swap
get_or-swap i j k arr hi hj = elim (Bool-cases (k == j)) [
  | inl at_j ↦ ground (
    arith,
    get_or-set_self (set arr i (get_or arr j 0)) j (get_or arr i 0) 0,
    length-set arr i (get_or arr j 0),
  )
  | inr not_j ↦ ground (
    arith,
    get_or-set_ne (set arr i (get_or arr j 0)) j k (get_or arr i 0) 0,
    get_or-set_ne arr i k (get_or arr j 0) 0,
    get_or-set_self arr i (get_or arr j 0) 0,
  )
]

-- How often a value occurs.
abbrev pub count : ℕ → List ℕ → ℕ
count a [] = 0
count a (x ∷ xs) = (if a == x then 1 else 0) + count a xs

abbrev pub SameItems : List ℕ → List ℕ → Type 0
SameItems xs ys = (a : ℕ) → count a xs ≡ count a ys

count-set :
    (a : ℕ) (arr : List ℕ) (i v : ℕ)
    → i < length arr
    → count a (set arr i v) + (if a == get_or arr i 0 then 1 else 0)
      ≡ count a arr + (if a == v then 1 else 0)
count-set a [] i v h = elim h [ ]
count-set a (x ∷ xs) zero v h = omega arith
count-set a (x ∷ xs) (suc i) v h = omega (arith, count-set a xs i v (omega arith))

pub swap-SameItems :
    (i j : ℕ) (arr : List ℕ) → i < length arr → j < length arr → SameItems (swap i j arr) arr
unfolding swap
swap-SameItems i j arr hi hj a = ground (
  arith,
  count-set a (set arr i (get_or arr j 0)) j (get_or arr i 0),
  count-set a arr i (get_or arr j 0),
  length-set arr i (get_or arr j 0),
  get_or-set_self arr i (get_or arr j 0) 0,
  get_or-set_ne arr i j (get_or arr j 0) 0,
)
