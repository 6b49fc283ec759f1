-- ===== src/Dvp/Preprocess/Sorting.antt =====
-- The sort of the median filter.
use pre.Dvp.Preprocess.{bubble, bubbles, bubble_sort}
use pre.QuickSelect.Swap.{SameItems}
use pre.Prelude.{
  ltb, leb, ◌==◌, if◌then◌else◌, leb→le, Bool-cases, length, get_or, ℕ, zero, suc, ◌+◌, ◌-◌, ◌≤◌,
  ◌<◌, ◌≡◌, refl, sym, ap, subst, ◌∙◌, inl, inr, List, [], ◌∷◌, arith,
}

length-bubble : (left : ℕ) (xs : List ℕ) → length (bubble left xs) ≡ length xs
unfolding bubble
length-bubble zero xs = refl
length-bubble (suc left) [] = refl
length-bubble (suc left) (a ∷ []) = refl
length-bubble (suc left) (a ∷ b ∷ xs) = ap suc (length-bubble left (_ ∷ xs))

bubble-SameItems : (left : ℕ) (xs : List ℕ) → SameItems (bubble left xs) xs
unfolding bubble
bubble-SameItems zero xs x = refl
bubble-SameItems (suc left) [] x = refl
bubble-SameItems (suc left) (a ∷ []) x = refl
bubble-SameItems (suc left) (a ∷ b ∷ xs) x =
    ground (arith, bubble-SameItems left ((if ltb b a then a else b) ∷ xs) x)

-- Past the compared neighbours nothing changes.
bubble_past : (left j : ℕ) (xs : List ℕ) → left < j → get_or (bubble left xs) j 0 ≡ get_or xs j 0
unfolding bubble
bubble_past zero j xs h = refl
bubble_past (suc left) j [] h = refl
bubble_past (suc left) j (a ∷ []) h = refl
bubble_past (suc left) zero (a ∷ b ∷ xs) h = absurd (omega arith)
bubble_past (suc left) (suc zero) (a ∷ b ∷ xs) h = absurd (omega arith)
bubble_past (suc left) (suc (suc j)) (a ∷ b ∷ xs) h =
    bubble_past left (suc j) ((if ltb b a then a else b) ∷ xs) (omega arith)

-- A bound of the compared items still holds.
bubble-le :
    (left : ℕ) (xs : List ℕ) (v : ℕ)
    → ((i : ℕ) → i ≤ left → get_or xs i 0 ≤ v)
    → (i : ℕ) → i ≤ left
    → get_or (bubble left xs) i 0 ≤ v
unfolding bubble
bubble-le zero xs v h i le = h i le
bubble-le (suc left) [] v h i le = h i le
bubble-le (suc left) (a ∷ []) v h i le = h i le
bubble-le (suc left) (a ∷ b ∷ xs) v h zero le = ground (arith, h 0 (omega arith), h 1 (omega arith))
bubble-le (suc left) (a ∷ b ∷ xs) v h (suc i) le =
    bubble-le left ((if ltb b a then a else b) ∷ xs) v next i (omega arith)
  where
    next : (k : ℕ) → k ≤ left → get_or ((if ltb b a then a else b) ∷ xs) k 0 ≤ v
    next zero k_le = ground (arith, h 0 (omega arith), h 1 (omega arith))
    next (suc k) k_le = h (suc (suc k)) (omega arith)

bubble_first :
    (left : ℕ) (xs : List ℕ) → left < length xs → get_or xs 0 0 ≤ get_or (bubble left xs) left 0
unfolding bubble
bubble_first zero xs h = omega arith
bubble_first (suc left) [] h = absurd (omega arith)
bubble_first (suc left) (a ∷ []) h = absurd (omega arith)
bubble_first (suc left) (a ∷ b ∷ xs) h =
    ground (arith, bubble_first left ((if ltb b a then a else b) ∷ xs) (omega arith))

-- The greatest of the compared items ends last.
bubble_last :
    (left i : ℕ) (xs : List ℕ)
    → left < length xs
    → i ≤ left
    → get_or (bubble left xs) i 0 ≤ get_or (bubble left xs) left 0
unfolding bubble
bubble_last zero i xs h le = ap_le i (omega arith)
  where
    ap_le : (k : ℕ) → k ≡ 0 → get_or xs k 0 ≤ get_or xs 0 0
    ap_le k e = subst (λ m. get_or xs m 0 ≤ get_or xs 0 0) (sym e) (omega arith)
bubble_last (suc left) i [] h le = absurd (omega arith)
bubble_last (suc left) i (a ∷ []) h le = absurd (omega arith)
bubble_last (suc left) zero (a ∷ b ∷ xs) h le =
    let next = (if ltb b a then a else b) ∷ xs in
    ground (arith, bubble_first left next (omega (arith, h)))
bubble_last (suc left) (suc i) (a ∷ b ∷ xs) h le =
    bubble_last left i ((if ltb b a then a else b) ∷ xs) (omega arith) (omega arith)

-- From index `k` on, every item is at least all those before it.
abbrev TopSorted : ℕ → List ℕ → Type 0
TopSorted k xs = (i j : ℕ) → i < j → k ≤ j → j < length xs → get_or xs i 0 ≤ get_or xs j 0

bubble-TopSorted :
    (left : ℕ) (xs : List ℕ)
    → left < length xs
    → TopSorted (left + 1) xs
    → TopSorted left (bubble left xs)
bubble-TopSorted left xs h top i j lt le inside = elim (Bool-cases (j == left)) [
  | inl e ↦
      let at : j ≡ left = ground (arith, e) in
      subst (λ k. get_or (bubble left xs) i 0 ≤ get_or (bubble left xs) k 0) (sym at)
        (bubble_last left i xs h (omega (arith, at)))
  | inr e ↦
      let past : left < j = ground (arith, e, le) in
      let in_xs : j < length xs = omega (arith, length-bubble left xs, inside) in
      let same = bubble_past left j xs past in
      elim (Bool-cases (leb i left)) [
        | inl early ↦
            let bound =
              bubble-le left xs (get_or xs j 0)
                (λ k k_le. top k j (omega (arith, past)) (omega (arith, past)) in_xs) i
                (leb→le i left early) in
            omega (arith, same, bound)
        | inr later ↦
            let after : left < i = ground (arith, later) in
            omega (arith, same, bubble_past left i xs after, top i j lt (omega (arith, past)) in_xs)
      ]
]

bubbles-TopSorted :
    (left : ℕ) (xs : List ℕ)
    → left ≤ length xs - 1
    → TopSorted (left + 1) xs
    → TopSorted 1 (bubbles left xs)
unfolding bubbles
bubbles-TopSorted zero xs h top = top
bubbles-TopSorted (suc left) xs h top =
    let next =
      bubble-TopSorted (suc left) xs (omega arith)
        (λ i j lt le inside. top i j lt (omega (arith, le)) inside) in
    bubbles-TopSorted left (bubble (suc left) xs) (omega (arith, length-bubble (suc left) xs))
      (λ i j lt le inside. next i j lt (omega (arith, le)) inside)

bubbles-SameItems : (left : ℕ) (xs : List ℕ) → SameItems (bubbles left xs) xs
unfolding bubbles
bubbles-SameItems zero xs x = refl
bubbles-SameItems (suc left) xs x =
    bubbles-SameItems left (bubble (suc left) xs) x ∙ bubble-SameItems (suc left) xs x

length-bubbles : (left : ℕ) (xs : List ℕ) → length (bubbles left xs) ≡ length xs
unfolding bubbles
length-bubbles zero xs = refl
length-bubbles (suc left) xs =
    length-bubbles left (bubble (suc left) xs) ∙ length-bubble (suc left) xs

-- The sort keeps the items and puts them in order.
pub bubble_sort_lem :
    (xs : List ℕ)
    → SameItems (bubble_sort xs) xs
      × (length (bubble_sort xs) ≡ length xs)
      × ((i j : ℕ)
          → i < j
          → j < length xs
          → get_or (bubble_sort xs) i 0 ≤ get_or (bubble_sort xs) j 0)
unfolding bubble_sort
bubble_sort_lem xs = (
  bubbles-SameItems (length xs - 1) xs,
  length-bubbles (length xs - 1) xs,
  λ i j lt inside.
      bubbles-TopSorted (length xs - 1) xs (omega arith) (λ a b l k m. absurd (omega (arith, k, m)))
        i j lt (omega (arith, lt)) (omega (arith, length-bubbles (length xs - 1) xs, inside)),
)
