-- ===== src/QuickSelect/Partition.antt =====
-- `partition` rearranges its range and puts the pivot where it belongs.
use pre.QuickSelect.Swap.{swap, length-swap, partner, get_or-swap, SameItems, swap-SameItems}
use pre.QuickSelect.Split.{
  Split, Split-swap, IsBelow, IsPartitioned, IsPartitioned-keep, IsPartitioned-leave,
}
use pre.QuickSelect.{partition_loop, partition_by}
use pre.Prelude.{
  Bool-cases, length, get_or, ℕ, zero, suc, ◌+◌, ◌-◌, ◌≤◌, ◌<◌, ◌≡◌, refl, subst, ◌∙◌, inl, inr,
  Bool, List, arith,
}

-- `arr'` holds the items of `arr`, and only those between `left` and `right` have moved.
pub record Rearranged (left right : ℕ) (arr arr' : List ℕ) : Type 0 where
  pub items : SameItems arr' arr
  pub same_length : length arr' ≡ length arr
  pub keeps_left : Split left arr → Split left arr'
  pub keeps_right : Split (right + 1) arr → Split (right + 1) arr'

Rearranged-refl : (left right : ℕ) (arr : List ℕ) → Rearranged left right arr arr
Rearranged-refl left right arr = record {
  items = λ a. refl;
  same_length = refl;
  keeps_left = λ s. s;
  keeps_right = λ s. s;
}

Rearranged-trans :
    {left right : ℕ} {a b c : List ℕ}
    → Rearranged left right a b
    → Rearranged left right b c
    → Rearranged left right a c
Rearranged-trans p q = record {
  items = λ a. q.items a ∙ p.items a;
  same_length = q.same_length ∙ p.same_length;
  keeps_left = λ s. q.keeps_left (p.keeps_left s);
  keeps_right = λ s. q.keeps_right (p.keeps_right s);
}

Rearranged-swap :
    (left right i j : ℕ) (arr : List ℕ)
    → left ≤ i
    → i ≤ right
    → left ≤ j
    → j ≤ right
    → right < length arr
    → Rearranged left right arr (swap i j arr)
Rearranged-swap left right i j arr li ir lj jr h = record {
  items = swap-SameItems i j arr (omega arith) (omega arith);
  same_length = length-swap i j arr;
  keeps_left = Split-swap left i j arr (omega arith) (omega arith) (inl (li, lj));
  keeps_right =
      Split-swap (right + 1) i j arr (omega arith) (omega arith) (inr (omega arith, omega arith));
}

-- What `partition` leaves: the pivot at its index, nothing greater before it and nothing smaller
-- after it within the range.
pub record IsPivoted (left right p : ℕ) (arr : List ℕ) : Type 0 where
  pub left_le : left ≤ p
  pub le_right : p ≤ right
  pub small : (j : ℕ) → left ≤ j → j ≤ p → get_or arr j 0 ≤ get_or arr p 0
  pub large : (j : ℕ) → p ≤ j → j ≤ right → get_or arr p 0 ≤ get_or arr j 0

IsPivoted-swap :
    {pivot left store right : ℕ} {arr : List ℕ}
    → IsPartitioned pivot left store right right arr
    → IsPivoted left right store (swap right store arr)
IsPivoted-swap {pivot} {left} {store} {right} {arr} v = record {
  left_le = v.left_le;
  le_right = v.store_le;
  small = λ j p q. ground (arith, moved j, moved store, v.small j, v.pivot_at, v.store_le);
  large = λ j p q.
      ground (arith, moved j, moved store, v.large j, v.large store, v.pivot_at, v.store_le);
}
  where
    moved : (j : ℕ) → get_or (swap right store arr) j 0 ≡ get_or arr (partner right store j) 0
    moved j = get_or-swap right store j arr v.right_lt (omega (arith, v.store_le, v.right_lt))

IsPartitioned-start :
    (left right pivot_index : ℕ) (arr : List ℕ)
    → left ≤ right
    → pivot_index ≤ right
    → right < length arr
    → IsPartitioned (get_or arr pivot_index 0) left left left right (swap pivot_index right arr)
IsPartitioned-start left right pivot_index arr lr hi h = record {
  left_le = omega arith;
  store_le = omega arith;
  i_le = lr;
  right_lt = omega (arith, length-swap pivot_index right arr);
  pivot_at = ground (arith, get_or-swap pivot_index right right arr);
  small = λ j p q. absurd (omega arith);
  large = λ j p q. absurd (omega arith);
}

module _ {below : ℕ → ℕ → Bool} (t : IsBelow below) where
  loop-IsPartitioned :
      (pivot left right rounds i store : ℕ) (arr : List ℕ)
      → IsPartitioned pivot left store i right arr
      → i + rounds ≡ right
      → let (arr', store') = partition_loop below pivot rounds i store arr in
        IsPartitioned pivot left store' right right arr' × Rearranged left right arr arr'
  unfolding partition_loop
  loop-IsPartitioned pivot left right zero i store arr v e =
      let e' : i ≡ right = omega arith in
      (subst (λ k. IsPartitioned pivot left store k right arr) e' v, Rearranged-refl left right arr)
  loop-IsPartitioned pivot left right (suc rounds) i store arr v e =
      elim (Bool-cases (below (get_or arr i 0) pivot)) [
        | inl kept ↦
            let (p, r) =
              loop-IsPartitioned pivot left right rounds (i + 1) (store + 1) (swap store i arr)
                (IsPartitioned-keep v (omega arith) (t.passes (get_or arr i 0) pivot kept))
                (omega arith) in
            rw (kept, partition_loop)
              (
                p,
                Rearranged-trans
                    (Rearranged-swap left right store i arr v.left_le (omega (arith, v.store_le))
                      (omega (arith, v.left_le, v.store_le)) (omega arith) v.right_lt)
                    r,
              )
        | inr other ↦
            rw (other, partition_loop)
              (loop-IsPartitioned pivot left right rounds (i + 1) store arr
                (IsPartitioned-leave v (omega arith) (t.fails (get_or arr i 0) pivot other))
                (omega arith))
      ]

  pub partition_by_lem :
      (left right pivot_index : ℕ) (arr : List ℕ)
      → left ≤ pivot_index
      → pivot_index ≤ right
      → right < length arr
      → let (arr', p) = partition_by below left right pivot_index arr in
        IsPivoted left right p arr' × Rearranged left right arr arr'
  unfolding partition_by
  partition_by_lem left right pivot_index arr lo hi h =
      let pivot = get_or arr pivot_index 0 in
      let (v, r) =
        loop-IsPartitioned pivot left right (right - left) left left (swap pivot_index right arr)
          (IsPartitioned-start left right pivot_index arr (omega arith) hi h) (omega arith) in
      let (looped, store) =
        partition_loop below pivot (right - left) left left (swap pivot_index right arr) in
      (
        IsPivoted-swap v,
        Rearranged-trans
            (Rearranged-trans
              (Rearranged-swap left right pivot_index right arr lo hi (omega arith) (omega arith) h)
              r)
            (Rearranged-swap left right right store looped (omega arith) (omega arith) v.left_le
              v.store_le v.right_lt),
      )
