-- ===== src/QuickSelect/Tests.antt =====
-- Selections from a short array, and the theorems at inputs that meet their hypotheses.
use mathlib.Core.Option
use pre.QuickSelect.Order.{quick_select-diff_quick_select}
use pre.Prelude.Counting.{below}
use pre.QuickSelect.Swap.{swap}
use pre.QuickSelect.{partition_loop, partition, quick_select, diff_quick_select}
use pre.QuickSelect.Laws.{IsSelected, quick_select_lem}
use pre.Prelude.{ℕ, suc, ◌≤◌, ◌<◌, ◌≡◌, refl, some, List, [], ◌∷◌, arith}

abbrev samples : List ℕ
samples = 40 ∷ 10 ∷ 30 ∷ 10 ∷ 20 ∷ []

partition_runs : partition 0 4 2 samples ≡ (10 ∷ 20 ∷ 10 ∷ 30 ∷ 40 ∷ [], 3)
unfolding partition partition_loop swap
partition_runs = refl

quick_select_runs : Option.map (λ r. r.0) (quick_select 5 0 4 3 samples) ≡ some 30
unfolding quick_select partition_loop swap
quick_select_runs = refl

diff_quick_select_runs : Option.map (λ r. r.0) (diff_quick_select 5 0 4 1 samples) ≡ some 10
unfolding diff_quick_select partition_loop swap
diff_quick_select_runs = refl

quick_select_lem_example :
    (v : ℕ) × (arr' : List ℕ) × (quick_select 5 0 4 3 samples ≡ some (v, arr'))
    × IsSelected 3 samples v arr'
quick_select_lem_example = quick_select_lem samples 3 (omega arith)

quick_select-diff_quick_select_example :
    (v : ℕ) × (arr' : List ℕ) × (brr' : List ℕ) × (quick_select 3 0 2 1 (5 ∷ 9 ∷ 5 ∷ [])
      ≡ some (v, arr'))
    × (diff_quick_select 3 0 2 1 (5 ∷ 9 ∷ 5 ∷ []) ≡ some (v, brr'))
    × (below v (5 ∷ 9 ∷ 5 ∷ []) ≤ 1)
    × (1 < below (suc v) (5 ∷ 9 ∷ 5 ∷ []))
quick_select-diff_quick_select_example =
    quick_select-diff_quick_select (5 ∷ 9 ∷ 5 ∷ []) 1 (omega arith)
