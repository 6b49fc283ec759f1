-- ===== src/QuickSelect/Order.antt =====
-- What a selection returns depends on the values and on the rank alone.
use pre.QuickSelect.{quick_select, diff_quick_select}
use pre.QuickSelect.Swap.{count, SameItems}
use pre.QuickSelect.Laws.{IsSelected, quick_select_lem, diff_quick_select_lem}
use pre.Prelude.Counting.{count_if, below, below_zero, below_mono}
use pre.Prelude.{
  ltb, leb, ◌==◌, leb→le, Bool-cases, length, get_or, ℕ, zero, suc, ◌+◌, ◌-◌, ◌≤◌, ◌<◌, ◌≡◌, refl,
  sym, ap, ◌∙◌, inl, inr, ◌||◌, some, List, [], ◌∷◌, arith,
}

one_less : (x m : ℕ) → ltb x (suc m) ≡ (ltb x m || m == x)
one_less x m = ground arith

below_step : (m : ℕ) (xs : List ℕ) → below (suc m) xs ≡ below m xs + count m xs
unfolding count_if
below_step m [] = omega arith
below_step m (x ∷ xs) = ground (arith, below_step m xs)

pub same-below : (xs ys : List ℕ) (m : ℕ) → SameItems xs ys → below m xs ≡ below m ys
same-below xs ys zero same = below_zero xs ∙ sym (below_zero ys)
same-below xs ys (suc m) same =
    omega (arith, below_step m xs, below_step m ys, same-below xs ys m same, same m)

-- Items at the first `k` indices that are below `m`.
below_first :
    (m k : ℕ) (xs : List ℕ) → ((i : ℕ) → i < k → get_or xs i 0 < m) → k ≤ length xs → k ≤ below m xs
unfolding count_if
below_first m zero xs h le = omega arith
below_first m (suc k) [] h le = absurd (omega arith)
below_first m (suc k) (x ∷ xs) h le =
    ground
      (arith, below_first m k xs (λ i lt. h (suc i) (omega arith)) (omega arith), h 0 (omega arith))

-- Items from index `k` on that are not.
below_rest :
    (m k : ℕ) (xs : List ℕ) → ((j : ℕ) → k ≤ j → j < length xs → m ≤ get_or xs j 0) → below m xs ≤ k
unfolding count_if
below_rest m k [] h = omega arith
below_rest m zero (x ∷ xs) h = ground (
  arith,
  below_rest m zero xs (λ j le lt. h (suc j) (omega arith) (omega arith)),
  h 0 (omega arith) (omega arith),
)
below_rest m (suc k) (x ∷ xs) h =
    ground (arith, below_rest m k xs (λ j le lt. h (suc j) (omega arith) (omega arith)))

-- At most `k` items are below the selected value, and more than `k` are not above it.
pub IsSelected-rank :
    (k v : ℕ) (arr arr' : List ℕ)
    → k < length arr
    → IsSelected k arr v arr'
    → (below v arr ≤ k) × (k < below (suc v) arr)
IsSelected-rank k v arr arr' lt s = (
  omega (arith, below_rest v k arr' s.after, same-below arr' arr v s.items),
  omega (
    arith,
    below_first (suc v) (suc k) arr' not_above (omega (arith, lt, s.same_length)),
    same-below arr' arr (suc v) s.items,
  ),
)
  where
    not_above : (i : ℕ) → i < suc k → get_or arr' i 0 < suc v
    not_above i h = elim (Bool-cases (i == k)) [
      | inl e ↦ ground (arith, e, s.value)
      | inr e ↦ omega (arith, s.before i (ground (arith, h, e)))
    ]

-- Of two selections from arrays with the same items, the one of the smaller rank is not greater.
pub IsSelected-mono :
    (k l v w : ℕ) (arr brr arr' brr' : List ℕ)
    → SameItems brr arr
    → k ≤ l
    → k < length arr
    → l < length brr
    → IsSelected k arr v arr'
    → IsSelected l brr w brr'
    → v ≤ w
IsSelected-mono k l v w arr brr arr' brr' same le lt lt' s t =
    let (few, many) = IsSelected-rank k v arr arr' lt s in
    let (few', many') = IsSelected-rank l w brr brr' lt' t in
    elim (Bool-cases (leb v w)) [
      | inl h ↦ leb→le v w h
      | inr h ↦ absurd (
          omega (
            arith,
            few,
            many',
            same-below brr arr (suc w) same,
            below_mono (suc w) v arr (ground (arith, h)),
          ))
    ]

-- The two copies of the selection, whose tests differ, return the same value for every array and every
-- index in it: that of the rank, below which there are at most as many items and not above which
-- there are more.
pub quick_select-diff_quick_select :
    (arr : List ℕ) (k : ℕ)
    → k < length arr
    → (v : ℕ) × (arr' : List ℕ) × (brr' : List ℕ) × (quick_select
          (length arr)
          0
          (length arr - 1)
          k
          arr
        ≡ some (v, arr'))
      × (diff_quick_select (length arr) 0 (length arr - 1) k arr ≡ some (v, brr'))
      × (below v arr ≤ k)
      × (k < below (suc v) arr)
quick_select-diff_quick_select arr k h =
    let (v, arr', e, s) = quick_select_lem arr k h in
    let (w, brr', e', t) = diff_quick_select_lem arr k h in
    let (few, many) = IsSelected-rank k v arr arr' h s in
    let same : w ≡ v = omega (
      arith,
      IsSelected-mono k k v w arr arr arr' brr' (λ a. refl) (omega arith) h h s t,
      IsSelected-mono k k w v arr arr brr' arr' (λ a. refl) (omega arith) h h t s,
    ) in
    (v, arr', brr', e, e' ∙ ap (λ x. some (x, brr')) same, few, many)
