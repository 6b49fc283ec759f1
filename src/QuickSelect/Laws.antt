-- ===== src/QuickSelect/Laws.antt =====
-- `partition` and selection are correct: only a rearrangement happens, inside the range, and the
-- value that comes out stands where sorting would put it.
use pre.QuickSelect.Swap.{SameItems}
use pre.QuickSelect.Split.{Split, IsBelow}
use pre.QuickSelect.{
  partition_by, quick_select_by, partition, quick_select, diff_partition, diff_quick_select,
}
use pre.Prelude.{
  ltb, leb, ◌==◌, Bool-cases, length, get_or, ℕ, zero, suc, ◌+◌, ◌-◌, ◌/◌, ◌≤◌, ◌<◌, ◌≡◌, refl,
  subst, ◌∙◌, inl, inr, Bool, some, List, arith,
}
use pre.QuickSelect.Partition.{Rearranged, IsPivoted, partition_by_lem}

-- The array is split on both sides of the pivot.
Split-at_pivot :
    {left right p : ℕ} {arr : List ℕ}
    → IsPivoted left right p arr
    → Split left arr
    → Split (right + 1) arr
    → Split p arr × Split (p + 1) arr
Split-at_pivot {left} {right} {p} {arr} v sl sr = (
  λ i j hi hj below. across i j (omega arith) hj below,
  λ i j hi hj below. across i j (omega arith) (omega arith) below,
)
  where
    across : (i j : ℕ) → i ≤ p → p ≤ j → j < length arr → get_or arr i 0 ≤ get_or arr j 0
    across i j hi hj below =
        ground (arith, v.left_le, v.le_right, sl i j, sr i j, v.small i, v.large j)

-- `v` is what stands at index `k` of the rearranged array, with nothing greater before it and
-- nothing smaller after it: the k-th smallest item.
pub record IsSelected (k : ℕ) (arr : List ℕ) (v : ℕ) (arr' : List ℕ) : Type 0 where
  pub items : SameItems arr' arr
  pub same_length : length arr' ≡ length arr
  pub value : v ≡ get_or arr' k 0
  pub before : (i : ℕ) → i < k → get_or arr' i 0 ≤ v
  pub after : (j : ℕ) → k ≤ j → j < length arr' → v ≤ get_or arr' j 0

IsSelected-Split :
    {k : ℕ} {arr arr' : List ℕ}
    → SameItems arr' arr
    → length arr' ≡ length arr
    → k < length arr
    → Split k arr'
    → Split (k + 1) arr'
    → IsSelected k arr (get_or arr' k 0) arr'
IsSelected-Split {k} items same h at_k after_k = record {
  items = items;
  same_length = same;
  value = refl;
  before = λ i hi. at_k i k hi (omega arith) (omega arith);
  after = λ j hj below. elim (Bool-cases (j == k)) [
    | inl here ↦ ground arith
    | inr later ↦ after_k k j (omega arith) (ground arith) below
  ];
}

-- What follows for the array `a` that was rearranged into `b`.
IsSelected-of_Rearranged :
    {left right k v : ℕ} {a b c : List ℕ}
    → Rearranged left right a b
    → IsSelected k b v c
    → IsSelected k a v c
IsSelected-of_Rearranged r s = record {
  items = λ x. s.items x ∙ r.items x;
  same_length = s.same_length ∙ r.same_length;
  value = s.value;
  before = s.before;
  after = s.after;
}

module _ {below : ℕ → ℕ → Bool} (t : IsBelow below) where
  -- A range of `n` items needs fuel `n`.
  pub quick_select_by_lem :
      (fuel left right k : ℕ) (arr : List ℕ)
      → left ≤ k
      → k ≤ right
      → right < length arr
      → right - left < fuel
      → Split left arr
      → Split (right + 1) arr
      → (v : ℕ) × (arr' : List ℕ) × (quick_select_by below fuel left right k arr ≡ some (v, arr'))
        × IsSelected k arr v arr'
  unfolding quick_select_by
  quick_select_by_lem zero left right k arr lk kr h f sl sr = elim f [ ]
  quick_select_by_lem (suc fuel) left right k arr lk kr h f sl sr =
      elim (Bool-cases (left == right)) [
        | inl single ↦
            let e : left ≡ k = ground arith in
            (
              get_or arr k 0,
              arr,
              rw (single, e),
              IsSelected-Split (λ a. refl) refl (omega arith) (subst (λ m. Split m arr) e sl)
                  (subst (λ m. Split m arr) {x = right + 1} {y = k + 1} (ground arith) sr),
            )
        | inr several ↦
            let mid = left + (right - left) / 2 in
            let (arr', p) = partition_by below left right mid arr in
            let (v, r) = partition_by_lem t left right mid arr (omega arith) (omega arith) h in
            let (at_p, after_p) = Split-at_pivot v (r.keeps_left sl) (r.keeps_right sr) in
            elim (Bool-cases (k == p)) [
              | inl here ↦
                  let e : p ≡ k = ground arith in
                  (
                    get_or arr' k 0,
                    arr',
                    rw (several, here),
                    IsSelected-Split r.items r.same_length (omega arith)
                        (subst (λ m. Split m arr') e at_p)
                        (subst (λ m. Split (m + 1) arr') e after_p),
                  )
              | inr elsewhere ↦ elim (Bool-cases (ltb k p)) [
                | inl lower ↦
                    let (x, out, e, s) =
                      quick_select_by_lem fuel left (p - 1) k arr' lk (ground arith)
                        (omega (arith, r.same_length, v.le_right)) (ground (arith, v.le_right))
                        (r.keeps_left sl)
                        (subst (λ m. Split m arr') {x = p} {y = p - 1 + 1} (ground arith) at_p) in
                    (
                      x,
                      out,
                      rw (several, elsewhere, lower) e,
                      IsSelected-of_Rearranged {v = x} {b = arr'} {c = out} r s,
                    )
                | inr upper ↦
                    let (x, out, e, s) =
                      quick_select_by_lem fuel (p + 1) right k arr' (ground arith) kr
                        (omega (arith, r.same_length)) (ground (arith, v.left_le)) after_p
                        (r.keeps_right sr) in
                    (
                      x,
                      out,
                      rw (several, elsewhere, upper) e,
                      IsSelected-of_Rearranged {v = x} {b = arr'} {c = out} r s,
                    )
              ]
            ]
      ]

leb-IsBelow : IsBelow leb
leb-IsBelow = record { passes = λ x p h. ground arith; fails = λ x p h. ground arith }

ltb-IsBelow : IsBelow ltb
ltb-IsBelow = record { passes = λ x p h. ground arith; fails = λ x p h. ground arith }

Split-zero : (arr : List ℕ) → Split 0 arr
Split-zero arr i j h _ _ = elim h [ ]

Split-end : (arr : List ℕ) (m : ℕ) → length arr ≤ m → Split m arr
Split-end arr m h i j _ hj below = absurd (omega arith)

-- Over a whole array that holds the index `k`, `quickSelect` of the mapper returns, within as many
-- nested calls as there are items, the k-th smallest item, and only rearranges the array.
pub quick_select_lem :
    (arr : List ℕ) (k : ℕ)
    → k < length arr
    → (v : ℕ) × (arr' : List ℕ) × (quick_select (length arr) 0 (length arr - 1) k arr
        ≡ some (v, arr'))
      × IsSelected k arr v arr'
unfolding quick_select
quick_select_lem arr k h =
    quick_select_by_lem leb-IsBelow (length arr) 0 (length arr - 1) k arr (omega arith)
      (omega arith) (omega arith) (omega arith) (Split-zero arr)
      (Split-end arr (length arr - 1 + 1) (omega arith))

-- Over a whole array that holds the index `k`, `Diff::quick_select`, whose test is strict, returns,
-- within as many nested calls as there are items, the k-th smallest item, and only rearranges the array.
pub diff_quick_select_lem :
    (arr : List ℕ) (k : ℕ)
    → k < length arr
    → (v : ℕ) × (arr' : List ℕ) × (diff_quick_select (length arr) 0 (length arr - 1) k arr
        ≡ some (v, arr'))
      × IsSelected k arr v arr'
unfolding diff_quick_select
diff_quick_select_lem arr k h =
    quick_select_by_lem ltb-IsBelow (length arr) 0 (length arr - 1) k arr (omega arith)
      (omega arith) (omega arith) (omega arith) (Split-zero arr)
      (Split-end arr (length arr - 1 + 1) (omega arith))

-- Both partitions put the pivot at the index that they return, with nothing greater before it and
-- nothing smaller after it in the range, and rearrange only the range.
pub partition_lem :
    (left right pivot_index : ℕ) (arr : List ℕ)
    → left ≤ pivot_index
    → pivot_index ≤ right
    → right < length arr
    → (let (arr', p) = partition left right pivot_index arr in
        IsPivoted left right p arr' × Rearranged left right arr arr')
      × (let (arr', p) = diff_partition left right pivot_index arr in
          IsPivoted left right p arr' × Rearranged left right arr arr')
unfolding partition diff_partition
partition_lem left right pivot_index arr lo hi h = (
  partition_by_lem leb-IsBelow left right pivot_index arr lo hi h,
  partition_by_lem ltb-IsBelow left right pivot_index arr lo hi h,
)
