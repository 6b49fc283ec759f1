-- ===== src/Gas/Laws.antt =====
-- What the gas difference computes.
use pre.Gas.{
  difference, sample_row, sample_rows, sampled, percentiles, clamp, normalise,
  process_raw_stats_vague, Thresholds, process_raw_stats_cv_vague,
}
use pre.QuickSelect.{diff_quick_select}
use pre.Cl.Diff.{DiffCl, diff_cl_diff}
use pre.QuickSelect.Laws.{diff_quick_select_lem}
use pre.QuickSelect.Order.{same-below, IsSelected-rank, IsSelected-mono}
use pre.Prelude.Counting.{below}
use pre.Cl.Kernel
use pre.Prelude.{
  ltb, leb, if◌then◌else◌, length, length-append, replicate, All, All-get_elem?, All-append,
  length-replicate, ℕ, zero, suc, ◌+◌, ◌-◌, ◌*◌, ◌/◌, ◌≤◌, ◌<◌, ◌≡◌, refl, sym, subst, ap₂, true,
  some, List, [], ◌∷◌, ◌++◌, map, arith,
}
use native.Mathlib.Nat.{mul-le-mul_right, suc-mul, mul_comm}
use pre.Prelude.Floats.{Floats}

sample_row_lem :
    (P : ℕ → Type 0) (temp_diff : List ℕ) (base left x : ℕ)
    → All P temp_diff
    → base + x + left * 4 ≤ length temp_diff + 3
    → (row : List ℕ) × (sample_row temp_diff base left x ≡ some row)
      × (length row ≡ left)
      × All P row
unfolding sample_row
sample_row_lem P temp_diff base zero x all h = ([], refl, refl, tt)
sample_row_lem P temp_diff base (suc left) x all h =
    let (v, e, p) = All-get_elem? P temp_diff (base + x) all (omega (arith, h)) in
    let (row, e', n, ps) = sample_row_lem P temp_diff base left (x + 4) all (omega (arith, h)) in
    (v ∷ row, ground (arith, e, e'), omega (arith, n), (p, ps))

sample_rows_lem :
    (P : ℕ → Type 0) (temp_diff : List ℕ) (width height left y : ℕ)
    → All P temp_diff
    → height * width ≤ length temp_diff
    → y + left * 4 ≤ height + 3
    → (rows : List ℕ) × (sample_rows temp_diff width left y ≡ some rows)
      × (length rows ≡ left * ((width + 3) / 4))
      × All P rows
unfolding sample_rows
sample_rows_lem P temp_diff width height zero y all fits h = ([], refl, omega arith, tt)
sample_rows_lem P temp_diff width height (suc left) y all fits h =
    let row_le : suc y * width ≤ height * width = mul-le-mul_right width (omega arith) in
    let (row, e, n, ps) =
      sample_row_lem P temp_diff (y * width) ((width + 3) / 4) 0 all
        (omega (arith, row_le, fits, suc-mul y width)) in
    let (rows, e', n', qs) =
      sample_rows_lem P temp_diff width height left (y + 4) all fits (omega (arith, h)) in
    (
      row ++ rows,
      ground (arith, e, e'),
      omega (arith, length-append row rows, n, n', suc-mul left ((width + 3) / 4)),
      All-append P row rows ps qs,
    )

-- Two selections one after the other give two values in order, each with the rank asked for.
percentiles_lem :
    (min_idx max_idx : ℕ → ℕ) (xs : List ℕ)
    → min_idx (length xs) ≤ max_idx (length xs)
    → max_idx (length xs) < length xs
    → (lo : ℕ) × (hi : ℕ) × (percentiles min_idx max_idx xs ≡ some (lo, hi))
      × (lo ≤ hi)
      × (below lo xs ≤ min_idx (length xs))
      × (min_idx (length xs) < below (suc lo) xs)
      × (below hi xs ≤ max_idx (length xs))
      × (max_idx (length xs) < below (suc hi) xs)
unfolding percentiles
percentiles_lem min_idx max_idx xs ordered inside =
    let n = length xs in
    let k : min_idx n < n = omega arith in
    let (v, arr, e1, s) = diff_quick_select_lem xs (min_idx n) k in
    let l : max_idx n < length arr = omega (arith, s.same_length) in
    let (w, arr', e2, t) = diff_quick_select_lem arr (max_idx n) l in
    let (few, many) = IsSelected-rank (min_idx n) v xs arr k s in
    let (few', many') = IsSelected-rank (max_idx n) w arr arr' l t in
    let second =
      subst (λ f. diff_quick_select f 0 (f - 1) (max_idx n) arr ≡ some (w, arr')) s.same_length
        e2 in
    (
      v,
      w,
      ground (arith, e1, second),
      IsSelected-mono (min_idx n) (max_idx n) v w xs arr arr arr' s.items ordered k l s t,
      few,
      many,
      omega (arith, few', same-below arr xs w s.items),
      omega (arith, many', same-below arr xs (suc w) s.items),
    )

-- The difference of a picture, where OpenCL reads back the whole of it.
pub difference-length :
    (r : Kernel.Replies ℕ) (cl : DiffCl) (input kept : List ℕ) (n : ℕ)
    → length r.result ≡ n
    → length ((difference r cl input (replicate n 0) kept).0) ≡ n
unfolding difference diff_cl_diff
difference-length r cl input kept n h = ground (arith, h, length-replicate {A = ℕ} n 0)

trivial_All : (xs : List ℕ) → All (λ v. v ≡ v) xs
trivial_All [] = tt
trivial_All (x ∷ xs) = (refl, trivial_All xs)

-- The thresholds that both variants take from the samples of a whole picture.
thresholds_lem :
    (min_idx max_idx : ℕ → ℕ) (temp_diff : List ℕ) (width height : ℕ)
    → let n = (height + 3) / 4 * ((width + 3) / 4) in
      length temp_diff ≡ width * height
      → min_idx n ≤ max_idx n
      → max_idx n < n
      → (samples : List ℕ) × (lo : ℕ) × (hi : ℕ) × (sampled temp_diff width height ≡ some samples)
        × (percentiles min_idx max_idx samples ≡ some (lo, hi))
        × (lo ≤ hi)
        × (below lo samples ≤ min_idx n)
        × (min_idx n < below (suc lo) samples)
        × (below hi samples ≤ max_idx n)
        × (max_idx n < below (suc hi) samples)
unfolding sampled
thresholds_lem min_idx max_idx temp_diff width height len ordered inside =
    let n = (height + 3) / 4 * ((width + 3) / 4) in
    let (samples, e, k, all) =
      sample_rows_lem (λ v. v ≡ v) temp_diff width height ((height + 3) / 4) 0
        (trivial_All temp_diff) (omega (arith, len, mul_comm width height)) (omega arith) in
    let (lo, hi, e', le, few, many, few', many') =
      percentiles_lem min_idx max_idx samples (subst (λ m. min_idx m ≤ max_idx m) (sym k) ordered)
        (subst (λ m. max_idx m < m) (sym k) inside) in
    (
      samples,
      lo,
      hi,
      e,
      e',
      le,
      subst (λ m. below lo samples ≤ min_idx m) k few,
      subst (λ m. min_idx m < below (suc lo) samples) k many,
      subst (λ m. below hi samples ≤ max_idx m) k few',
      subst (λ m. max_idx m < below (suc hi) samples) k many',
    )

-- `Process_Raw_Stats_Vague` of a whole picture, with percentiles of its samples in order and in range,
-- makes no access out of range: it stretches the difference, whether OpenCL computed it or
-- failed, each pixel first held between two thresholds in order, which have the ranks asked for
-- among every fourth pixel of every fourth row.
pub process_raw_stats_vague_lem :
    (fl : Floats) (min_idx max_idx : ℕ → ℕ) (r : Kernel.Replies ℕ) (cl : DiffCl)
    (input kept : List ℕ) (width height : ℕ)
    → let n = (height + 3) / 4 * ((width + 3) / 4) in
      let (temp_diff, kept') = difference r cl input (replicate (width * height) 0) kept in
      length r.result ≡ width * height
      → min_idx n ≤ max_idx n
      → max_idx n < n
      → (samples : List ℕ) × (lo : ℕ) × (hi : ℕ) × (sampled temp_diff width height ≡ some samples)
        × (lo ≤ hi)
        × (below lo samples ≤ min_idx n)
        × (min_idx n < below (suc lo) samples)
        × (below hi samples ≤ max_idx n)
        × (max_idx n < below (suc hi) samples)
        × (process_raw_stats_vague fl min_idx max_idx r cl input kept width height
            ≡ some (true, map (λ v. normalise fl lo hi (clamp v lo hi)) temp_diff, kept'))
        × ((v : ℕ) → (lo ≤ clamp v lo hi) × (clamp v lo hi ≤ hi))
unfolding process_raw_stats_vague
process_raw_stats_vague_lem fl min_idx max_idx r cl input kept width height len ordered inside =
    let (temp_diff, kept') = difference r cl input (replicate (width * height) 0) kept in
    let (samples, lo, hi, e, e', le, few, many, few', many') =
      thresholds_lem min_idx max_idx temp_diff width height
        (difference-length r cl input kept (width * height) len) ordered inside in
    (
      samples,
      lo,
      hi,
      e,
      le,
      few,
      many,
      few',
      many',
      ground (arith, e, e'),
      λ v. (ground (arith, le), ground (arith, le)),
    )

-- Thresholds as OpenCV documents them: above the threshold a pixel is kept by the first and replaced by
-- the threshold by the second; else it is 0 and kept.
pub record IsThresholds (cv : Thresholds) : Type 0 where
  pub zero_at : (v t : ℕ) → cv.to_zero v t ≡ (if ltb t v then v else 0)
  pub trunc_at : (v t : ℕ) → cv.trunc v t ≡ (if ltb t v then t else v)

-- A pixel between two thresholds stays; one up to the lower is 0, one above the upper becomes that.
abbrev pub between : ℕ → ℕ → ℕ → ℕ
between lo hi v = if leb v lo then 0 else if ltb hi v then hi else v

map-ext : (f g : ℕ → ℕ) (xs : List ℕ) → ((v : ℕ) → f v ≡ g v) → map f xs ≡ map g xs
map-ext f g [] h = refl
map-ext f g (x ∷ xs) h = ap₂ (λ v l. v ∷ l) (h x) (map-ext f g xs h)

-- `Process_Raw_Stats_CV_Vague`, the variant that the program uses, of a whole picture, with percentiles
-- of its samples in order and in range and with the thresholds of OpenCV: it makes no access out of
-- range. Every pixel of the difference up to the lower threshold becomes 0, one above the upper
-- becomes that threshold, and one between them stays as it is. Each threshold is the value of the
-- rank asked for among every fourth pixel of every fourth row: at most so many of these lie below
-- it, and more lie not above it.
pub process_raw_stats_cv_vague_lem :
    (cv : Thresholds) (min_idx max_idx : ℕ → ℕ) (r : Kernel.Replies ℕ) (cl : DiffCl)
    (input kept : List ℕ) (width height : ℕ)
    → let n = (height + 3) / 4 * ((width + 3) / 4) in
      let (temp_diff, kept') = difference r cl input (replicate (width * height) 0) kept in
      IsThresholds cv
      → length r.result ≡ width * height
      → min_idx n ≤ max_idx n
      → max_idx n < n
      → (samples : List ℕ) × (lo : ℕ) × (hi : ℕ) × (sampled temp_diff width height ≡ some samples)
        × (lo ≤ hi)
        × (below lo samples ≤ min_idx n)
        × (min_idx n < below (suc lo) samples)
        × (below hi samples ≤ max_idx n)
        × (max_idx n < below (suc hi) samples)
        × (process_raw_stats_cv_vague cv min_idx max_idx r cl input kept width height
            ≡ some (true, map (between lo hi) temp_diff, kept'))
unfolding process_raw_stats_cv_vague
process_raw_stats_cv_vague_lem cv min_idx max_idx r cl input kept width height c len ordered
      inside =
    let (temp_diff, kept') = difference r cl input (replicate (width * height) 0) kept in
    let (samples, lo, hi, e, e', le, few, many, few', many') =
      thresholds_lem min_idx max_idx temp_diff width height
        (difference-length r cl input kept (width * height) len) ordered inside in
    let same =
      map-ext (λ v. cv.trunc (cv.to_zero v lo) hi) (between lo hi) temp_diff
        (λ v. ground (arith, le, c.zero_at v lo, c.trunc_at (cv.to_zero v lo) hi)) in
    (samples, lo, hi, e, le, few, many, few', many', ground (arith, e, e', same))
