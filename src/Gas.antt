-- ===== src/Gas.antt =====
-- The gas difference: `class Diff` of src/media/algo/gass/diff.cpp, over the wrapper of OpenCL in
-- src/config/cl/diff_cl.c. The index that a percentile of a size gives, which C computes in floating
-- point and truncates, `std::sort` and the functions of OpenCV are arguments.
pub mod Laws
mod Tests
use pre.Cl.Diff.{DiffCl, diff_cl_diff}
use pre.QuickSelect.{diff_quick_select}
use pre.Cl.Kernel
use pre.Prelude.{
  ltb, if◌then◌else◌, ◌>>=◌, length, get_elem?, replicate, ℕ, zero, suc, ◌+◌, ◌-◌, ◌*◌, ◌/◌, ◌%◌,
  ◌^◌, Bool, true, Option, some, List, [], ◌∷◌, ◌++◌, map,
}
use pre.Prelude.Int.{pos}
use pre.Prelude.Floats.{Floats}

-- `Checksum` at index `i`, with the rounds left: `none` past the end of the data.
unfoldable pub checksum_from : ℕ → ℕ → ℕ → List ℕ → Option ℕ
checksum_from zero i sum data_in = some sum
checksum_from (suc left) i sum data_in = do
  x ← get_elem? data_in i
  checksum_from left (i + 1) ((sum + x) % 2 ^ 16) data_in

-- `Checksum`, which the functions below no longer call.
unfoldable pub checksum : List ℕ → Option ℕ
unfolding checksum_from
checksum data_in = checksum_from 10 0 0 data_in

-- The difference that OpenCL writes over a picture, and the frame kept for the next one. The status
-- of `DiffCL_Diff` is not looked at.
unfoldable pub difference : Kernel.Replies ℕ → DiffCl → List ℕ → List ℕ → List ℕ → List ℕ × List ℕ
difference r cl input output kept =
    let (status, output', kept') = diff_cl_diff r cl input output kept in (output', kept')

-- `Process_Raw`
unfoldable pub process_raw :
    Kernel.Replies ℕ → DiffCl → List ℕ → List ℕ → List ℕ → Bool × List ℕ × List ℕ
process_raw r cl input output kept =
    let (output', kept') = difference r cl input output kept in (true, output', kept')

-- `sample_step`
abbrev pub sample_step : ℕ
sample_step = 4

-- The inner loop of the sampling, at column `x` of the row at index `base`, with the rounds left.
unfoldable pub sample_row : List ℕ → ℕ → ℕ → ℕ → Option (List ℕ)
sample_row temp_diff base zero x = some []
sample_row temp_diff base (suc left) x = do
  v ← get_elem? temp_diff (base + x)
  rest ← sample_row temp_diff base left (x + sample_step)
  some (v ∷ rest)

-- The outer loop at row `y`, with the rounds left.
unfoldable pub sample_rows : List ℕ → ℕ → ℕ → ℕ → Option (List ℕ)
sample_rows temp_diff width zero y = some []
sample_rows temp_diff width (suc left) y = do
  row ← sample_row temp_diff (y * width) ((width + 3) / sample_step) 0
  rest ← sample_rows temp_diff width left (y + sample_step)
  some (row ++ rest)

-- `sampled_diff`
unfoldable pub sampled : List ℕ → ℕ → ℕ → Option (List ℕ)
sampled temp_diff width height = sample_rows temp_diff width ((height + 3) / sample_step) 0

-- The two percentiles of the samples, the second one selected from what the first selection leaves.
unfoldable pub percentiles : (ℕ → ℕ) → (ℕ → ℕ) → List ℕ → Option (ℕ × ℕ)
percentiles min_idx max_idx sampled_diff = do
  let n = length sampled_diff
  (min_val, arr) ← diff_quick_select n 0 (n - 1) (min_idx n) sampled_diff
  (max_val, arr') ← diff_quick_select n 0 (n - 1) (max_idx n) arr
  some (min_val, max_val)

-- `std::clamp`
abbrev pub clamp : ℕ → ℕ → ℕ → ℕ
clamp val lo hi = if ltb val lo then lo else if ltb hi val then hi else val

-- The value stretched to 16 bits. Where `max_val` is `min_val` this divides by 0.
unfoldable pub normalise : (fl : Floats) → ℕ → ℕ → ℕ → ℕ
normalise fl min_val max_val val = fl.to_ℕ (
    fl.div (fl.mul (fl.of_ℤ (pos (val - min_val))) (fl.of_ℤ (pos 65535)))
      (fl.of_ℤ (pos (max_val - min_val))))

-- `Process_Raw_Stats_Vague`: what it returns, the output and the kept frame.
unfoldable pub process_raw_stats_vague :
    Floats
    → (ℕ → ℕ)
    → (ℕ → ℕ)
    → Kernel.Replies ℕ
    → DiffCl
    → List ℕ
    → List ℕ
    → ℕ
    → ℕ
    → Option (Bool × List ℕ × List ℕ)
process_raw_stats_vague fl min_idx max_idx r cl input kept width height = do
  let (temp_diff, kept') = difference r cl input (replicate (width * height) 0) kept
  sampled_diff ← sampled temp_diff width height
  (min_val, max_val) ← percentiles min_idx max_idx sampled_diff
  some
      (true, map (λ val. normalise fl min_val max_val (clamp val min_val max_val)) temp_diff, kept')

-- `Process_Raw_Stats`, with the whole difference sorted.
unfoldable pub process_raw_stats :
    Floats
    → (List ℕ → List ℕ)
    → (ℕ → ℕ)
    → (ℕ → ℕ)
    → Kernel.Replies ℕ
    → DiffCl
    → List ℕ
    → List ℕ
    → ℕ
    → ℕ
    → Option (Bool × List ℕ × List ℕ)
process_raw_stats fl sort min_idx max_idx r cl input kept width height = do
  let total_size = width * height
  let (temp_diff, kept') = difference r cl input (replicate total_size 0) kept
  let sorted_diff = sort temp_diff
  min_val ← get_elem? sorted_diff (min_idx total_size)
  max_val ← get_elem? sorted_diff (max_idx total_size)
  some
      (true, map (λ val. normalise fl min_val max_val (clamp val min_val max_val)) temp_diff, kept')

-- What `cv::threshold` does with a pixel, given the threshold.
pub record Thresholds : Type 0 where
  pub to_zero : ℕ → ℕ → ℕ
  pub trunc : ℕ → ℕ → ℕ

-- `Process_Raw_Stats_CV`, where `sort` is `cv::sort` of all pixels.
unfoldable pub process_raw_stats_cv :
    Thresholds
    → (List ℕ → List ℕ)
    → (ℕ → ℕ)
    → (ℕ → ℕ)
    → Kernel.Replies ℕ
    → DiffCl
    → List ℕ
    → List ℕ
    → ℕ
    → ℕ
    → Option (Bool × List ℕ × List ℕ)
process_raw_stats_cv cv sort min_idx max_idx r cl input kept width height = do
  let total_size = width * height
  let (temp_diff, kept') = difference r cl input (replicate total_size 0) kept
  let sorted = sort temp_diff
  min_val ← get_elem? sorted (min_idx total_size)
  max_val ← get_elem? sorted (max_idx total_size)
  some (true, map (λ val. cv.trunc (cv.to_zero val min_val) max_val) temp_diff, kept')

-- `Process_Raw_Stats_CV_Vague`
unfoldable pub process_raw_stats_cv_vague :
    Thresholds
    → (ℕ → ℕ)
    → (ℕ → ℕ)
    → Kernel.Replies ℕ
    → DiffCl
    → List ℕ
    → List ℕ
    → ℕ
    → ℕ
    → Option (Bool × List ℕ × List ℕ)
process_raw_stats_cv_vague cv min_idx max_idx r cl input kept width height = do
  let (temp_diff, kept') = difference r cl input (replicate (width * height) 0) kept
  sampled_diff ← sampled temp_diff width height
  (min_val, max_val) ← percentiles min_idx max_idx sampled_diff
  some (true, map (λ val. cv.trunc (cv.to_zero val min_val) max_val) temp_diff, kept')
