-- ===== src/Range/Tests.antt =====
-- The theorems on the range at concrete inputs.
use pre.Range.{
  samples, build, find_min, find_max, refine, stats_of, calculate_frame_stats_hist, new_mapper,
  smooth, update_range,
}
use pre.Prelude.Counting.{below, from}
use pre.Range.Laws.{calculate_frame_stats_hist_lem}
use pre.Range.Histogram.{IsU16}
use pre.Prelude.Floats.{whole}
use pre.Prelude.{
  replicate, All, ℕ, ◌+◌, ◌*◌, ◌/◌, ◌≤◌, ◌<◌, ◌≡◌, refl, true, some, List, [], ◌∷◌, arith,
}

abbrev percent_1 : ℕ → ℕ
percent_1 n = n / 100

abbrev percent_99 : ℕ → ℕ
percent_99 n = n * 99 / 100

abbrev image : List ℕ
image = 300 ∷ 1 ∷ 2 ∷ 3 ∷ 7000 ∷ 5 ∷ []

image_range : calculate_frame_stats_hist percent_1 percent_99 image 6 ≡ some (0, 7000)
unfolding calculate_frame_stats_hist samples stats_of build find_min find_max refine
image_range = refl

-- The first frame is not widened to the least range: of one value alone the range is empty.
uniform_range :
    update_range whole 0 percent_1 percent_99 (replicate 400 300) 20 20 (new_mapper whole)
    ≡ some (record { smoothed_min = 300; smoothed_max = 300; initialized = true })
unfolding update_range smooth calculate_frame_stats_hist samples stats_of build find_min find_max
    refine
uniform_range = refl

image-IsU16 : All IsU16 image
image-IsU16 =
    (omega arith, (omega arith, (omega arith, (omega arith, (omega arith, (omega arith, tt))))))

calculate_frame_stats_hist_lem_example :
    (values : List ℕ) × (min_val : ℕ) × (max_val : ℕ) × (samples image 2 0 ≡ some values)
    × (calculate_frame_stats_hist percent_1 percent_99 image 6 ≡ some (min_val, max_val))
    × (min_val ≤ max_val)
    × (max_val < 65536)
    × (below min_val values ≤ 0)
    × (from (max_val + 1) values < 1)
calculate_frame_stats_hist_lem_example =
    calculate_frame_stats_hist_lem percent_1 percent_99 image 6 image-IsU16 (omega arith)
      (omega arith) (omega arith)
