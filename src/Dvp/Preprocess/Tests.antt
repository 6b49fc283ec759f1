-- ===== src/Dvp/Preprocess/Tests.antt =====
-- The theorems on the filters at concrete inputs.
use pre.Dvp.Preprocess.{
  cdf, equalize, around_row, around_rows, neighborhood, bubble, bubbles, bubble_sort, median_at,
}
use pre.Dvp.Preprocess.Laws.{nine, median_at_lem}
use pre.Prelude.Counting.{count_if, below}
use pre.Dvp.Preprocess.{abs_diff}
use pre.Prelude.{
  ltb, if◌then◌else◌, ◌&&◌, length, ℕ, suc, ◌/◌, ◌≤◌, ◌<◌, ◌≡◌, refl, List, [], ◌∷◌, arith,
}

abbrev image : List ℕ
image = 1 ∷ 2 ∷ 3 ∷ 40000 ∷ 5 ∷ 6 ∷ []

spot_removed : median_at image 3 2 1 0 ≡ 5
unfolding median_at neighborhood around_rows around_row bubble_sort bubbles bubble
spot_removed = refl

-- A value from 64 to 255 is equalised although the histogram does not count it: it becomes 0.
dim_becomes_black : equalize (λ n. n) (100 ∷ 300 ∷ []) 100 ≡ 0
unfolding equalize cdf count_if
dim_becomes_black = refl

median_at_lem_example :
    let around = nine image 3 2 1 0 in
    (median : ℕ) × (below median around ≤ length around / 2)
    × (length around / 2 < below (suc median) around)
    × (median_at image 3 2 1 0
        ≡ (if ltb 10000 (abs_diff 40000 median) && ltb median 100 then median else 40000))
median_at_lem_example = median_at_lem image 3 2 1 0 (omega arith) (omega arith)
