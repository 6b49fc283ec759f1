-- ===== src/QuickSelect/Split.antt =====
-- An array is split at an index when nothing before it exceeds anything from it on. Selection keeps
-- the splits at both ends of its range, and makes one on each side of the pivot.
use pre.QuickSelect.Swap.{swap, length-swap, partner, get_or-swap}
use pre.Prelude.{
  ◌==◌, Bool-cases, length, get_or, ℕ, ◌+◌, ◌≤◌, ◌<◌, ◌≡◌, ◌⊎◌, inl, inr, Bool, true, false, List,
  arith,
}

abbrev pub Split : ℕ → List ℕ → Type 0
Split m arr = (i j : ℕ) → i < m → m ≤ j → j < length arr → get_or arr i 0 ≤ get_or arr j 0

-- A swap on one side of `m` keeps the split at `m`.
pub Split-swap :
    (m a b : ℕ) (arr : List ℕ)
    → a < length arr
    → b < length arr
    → ((m ≤ a) × (m ≤ b)) ⊎ ((a < m) × (b < m))
    → Split m arr
    → Split m (swap a b arr)
Split-swap m a b arr ha hb side split i j hi hj below = ground (
  arith,
  get_or-swap a b i arr ha hb,
  get_or-swap a b j arr ha hb,
  length-swap a b arr,
  split (partner a b i) (partner a b j),
)

-- A test that puts what passes it at or below the pivot, and the rest at or above.
pub record IsBelow (below : ℕ → ℕ → Bool) : Type 0 where
  pub passes : (x p : ℕ) → below x p ≡ true → x ≤ p
  pub fails : (x p : ℕ) → below x p ≡ false → p ≤ x

-- The state of the loop of `partition` at index `i`.
pub record IsPartitioned (pivot left store i right : ℕ) (arr : List ℕ) : Type 0 where
  pub left_le : left ≤ store
  pub store_le : store ≤ i
  pub i_le : i ≤ right
  pub right_lt : right < length arr
  pub pivot_at : get_or arr right 0 ≡ pivot
  pub small : (j : ℕ) → left ≤ j → j < store → get_or arr j 0 ≤ pivot
  pub large : (j : ℕ) → store ≤ j → j < i → pivot ≤ get_or arr j 0

pub IsPartitioned-keep :
    {pivot left store i right : ℕ} {arr : List ℕ}
    → IsPartitioned pivot left store i right arr
    → i < right
    → get_or arr i 0 ≤ pivot
    → IsPartitioned pivot left (store + 1) (i + 1) right (swap store i arr)
IsPartitioned-keep {pivot} {left} {store} {i} {right} {arr} v h le = record {
  left_le = omega (arith, v.left_le);
  store_le = omega (arith, v.store_le);
  i_le = omega arith;
  right_lt = omega (arith, length-swap store i arr, v.right_lt);
  pivot_at = ground (arith, moved right, v.pivot_at, v.store_le);
  small = λ j p q. ground (arith, moved j, v.small j, v.store_le);
  large = λ j p q. ground (arith, moved j, v.large store, v.large j, v.store_le);
}
  where
    moved : (j : ℕ) → get_or (swap store i arr) j 0 ≡ get_or arr (partner store i j) 0
    moved j =
        get_or-swap store i j arr (omega (arith, v.store_le, v.right_lt))
          (omega (arith, v.right_lt))

pub IsPartitioned-leave :
    {pivot left store i right : ℕ} {arr : List ℕ}
    → IsPartitioned pivot left store i right arr
    → i < right
    → pivot ≤ get_or arr i 0
    → IsPartitioned pivot left store (i + 1) right arr
IsPartitioned-leave {pivot} {left} {store} {i} {right} {arr} v h le = record {
  left_le = v.left_le;
  store_le = omega (arith, v.store_le);
  i_le = omega arith;
  right_lt = v.right_lt;
  pivot_at = v.pivot_at;
  small = v.small;
  large = λ j p q. elim (Bool-cases (j == i)) [
    | inl last ↦ ground arith
    | inr earlier ↦ v.large j p (ground arith)
  ];
}
