-- ===== src/QuickSelect.antt =====
-- Selection of the k-th smallest value, in place: `partition` and `quickSelect` of
-- src/media/algo/pseudo/pseudo_am.cpp, and `Diff::partition` and `Diff::quick_select` of
-- src/media/algo/gass/diff.cpp, which differ in the test only: `<=` there, `<` here.
pub mod Swap
pub mod Split
pub mod Partition
pub mod Laws
pub mod Order
mod Tests
use pre.QuickSelect.Swap.{swap}
use pre.Prelude.{
  ltb, leb, ◌==◌, if◌then◌else◌, get_or, ℕ, zero, suc, ◌+◌, ◌-◌, ◌/◌, Bool, Option, none, some,
  List,
}

module _ (below : ℕ → ℕ → Bool) where
  -- The loop of `partition` at index `i`, with the rounds left: the array and `storeIndex`.
  pub partition_loop : ℕ → ℕ → ℕ → ℕ → List ℕ → List ℕ × ℕ
  partition_loop pivot_value zero i store_index arr = (arr, store_index)
  partition_loop pivot_value (suc left) i store_index arr =
      let kept = below (get_or arr i 0) pivot_value in
      partition_loop pivot_value left (i + 1) (if kept then store_index + 1 else store_index)
        (if kept then swap store_index i arr else arr)

  pub partition_by : ℕ → ℕ → ℕ → List ℕ → List ℕ × ℕ
  unfolding partition_loop
  partition_by left right pivot_index arr =
      let pivot_value = get_or arr pivot_index 0 in
      let (looped, store_index) =
        partition_loop pivot_value (right - left) left left (swap pivot_index right arr) in
      (swap right store_index looped, store_index)

  -- `quickSelect` on fuel: the value, beside the array that it leaves.
  pub quick_select_by : ℕ → ℕ → ℕ → ℕ → List ℕ → Option (ℕ × List ℕ)
  quick_select_by zero left right k arr = none
  quick_select_by (suc fuel) left right k arr =
      let (arr', pivot_index) = partition_by left right (left + (right - left) / 2) arr in
      let below_pivot = quick_select_by fuel left (pivot_index - 1) k arr' in
      let above_pivot = quick_select_by fuel (pivot_index + 1) right k arr' in
      if left == right
      then some (get_or arr left 0, arr)
      else if k == pivot_index
      then some (get_or arr' k 0, arr')
      else if ltb k pivot_index
      then below_pivot
      else above_pivot

-- `partition` and `quickSelect` of the adaptive mapper
pub partition : ℕ → ℕ → ℕ → List ℕ → List ℕ × ℕ
unfolding partition_by
partition = partition_by leb

pub quick_select : ℕ → ℕ → ℕ → ℕ → List ℕ → Option (ℕ × List ℕ)
unfolding quick_select_by partition_by
quick_select = quick_select_by leb

-- `Diff::partition` and `Diff::quick_select`
pub diff_partition : ℕ → ℕ → ℕ → List ℕ → List ℕ × ℕ
unfolding partition_by
diff_partition = partition_by ltb

pub diff_quick_select : ℕ → ℕ → ℕ → ℕ → List ℕ → Option (ℕ × List ℕ)
unfolding quick_select_by partition_by
diff_quick_select = quick_select_by ltb
