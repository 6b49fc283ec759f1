-- ===== src/Range.antt =====
-- The range of values that the colour mapping covers: `class PseudoAdaptiveMapper` of
-- src/media/algo/pseudo/pseudo_am.cpp and pseudo_am.h. The products of a count with 0.01 and with
-- 0.99, which C computes in floating point and truncates, are arguments.
pub mod Histogram
mod Refine
pub mod Laws
mod Tests
use pre.QuickSelect.{quick_select}
use pre.Prelude.{
  leb, ◌==◌, if◌then◌else◌, ◌>>=◌, get_elem?, set, get_or, replicate, ℕ, zero, suc, ◌+◌, ◌-◌, ◌*◌,
  ◌/◌, min, max, Bool, true, false, not, ◌&&◌, Option, some, List, [], ◌∷◌,
}
use pre.Prelude.Int.{pos}
use pre.Prelude.Floats.{Floats}

-- SAMPLE_STRIDE, BIN_SIZE and SAMPLES_PER_BIN
abbrev pub sample_stride : ℕ
sample_stride = 4

abbrev pub bin_size : ℕ
bin_size = 256

abbrev pub samples_per_bin : ℕ
samples_per_bin = 256

-- The values that a loop reads at index `i` and each fourth index after it, with the rounds left;
-- `none` past the end.
unfoldable pub samples : List ℕ → ℕ → ℕ → Option (List ℕ)
samples input zero i = some []
samples input (suc left) i = do
  value ← get_elem? input i
  rest ← samples input left (i + sample_stride)
  some (value ∷ rest)

-- Loop 1: the histogram of the values and their number.
unfoldable pub build : List ℕ → List ℕ → ℕ → List ℕ × ℕ
build [] histogram total_samples = (histogram, total_samples)
build (value ∷ values) histogram total_samples =
    let bin = min (value / samples_per_bin) (bin_size - 1) in
    build values (set histogram bin (get_or histogram bin 0 + 1)) (total_samples + 1)

-- Loop 2 at index `i`, with the rounds left.
unfoldable pub find_min : List ℕ → ℕ → ℕ → ℕ → ℕ → ℕ
find_min histogram target_min zero i count = 0
find_min histogram target_min (suc left) i count =
    let rest = find_min histogram target_min left (i + 1) (count + get_or histogram i 0) in
    if leb target_min (count + get_or histogram i 0) then i else rest

-- Loop 3, down from the index below `i`; `goal` is `total_samples - target_max`.
unfoldable pub find_max : List ℕ → ℕ → ℕ → ℕ → ℕ
find_max histogram goal zero count = bin_size - 1
find_max histogram goal (suc i) count =
    let rest = find_max histogram goal i (count + get_or histogram i 0) in
    if leb goal (count + get_or histogram i 0) then i else rest

-- Loop 4. Both tests are of `int`, so `max_val - SAMPLES_PER_BIN` may be negative: then it holds, as
-- it does of 0 here.
unfoldable pub refine : ℕ → ℕ → List ℕ → ℕ → ℕ → ℕ × ℕ
refine min_val max_val [] refined_min refined_max = (refined_min, refined_max)
refine min_val max_val (value ∷ values) refined_min refined_max =
    refine min_val max_val values
      (if leb min_val value && leb value (min_val + samples_per_bin)
        then min refined_min value
        else refined_min)
      (if leb (max_val - samples_per_bin) value && leb value max_val
        then max refined_max value
        else refined_max)

-- What `CalculateFrameStats_HIST` computes of the values.
unfoldable pub stats_of : (ℕ → ℕ) → (ℕ → ℕ) → List ℕ → ℕ × ℕ
stats_of percent_1 percent_99 values =
    let (histogram, total_samples) = build values (replicate bin_size 0) 0 in
    let target_min = percent_1 total_samples in
    let target_max = percent_99 total_samples in
    let min_bin = find_min histogram target_min bin_size 0 0 in
    let max_bin = find_max histogram (total_samples - target_max) bin_size 0 in
    let min_val = min_bin * samples_per_bin in
    let max_val = (max_bin + 1) * samples_per_bin - 1 in
    let (refined_min, refined_max) = refine min_val max_val values 65535 0 in
    (
      if not (refined_min == 65535) then refined_min else min_val,
      if not (refined_max == 0) then refined_max else max_val,
    )

-- `CalculateFrameStats_HIST`: the two results; `none` where it reads past the input.
unfoldable pub calculate_frame_stats_hist : (ℕ → ℕ) → (ℕ → ℕ) → List ℕ → ℕ → Option (ℕ × ℕ)
unfolding samples stats_of
calculate_frame_stats_hist percent_1 percent_99 input size = do
  values ← samples input ((size + sample_stride - 1) / sample_stride) 0
  some (stats_of percent_1 percent_99 values)

-- `CalculateFrameStats`: both selections run on the same buffer.
unfoldable pub calculate_frame_stats : (ℕ → ℕ) → (ℕ → ℕ) → List ℕ → ℕ → Option (ℕ × ℕ)
unfolding samples
calculate_frame_stats percent_1 percent_99 input size = do
  let sample_size = size / sample_stride
  buffer ← samples input sample_size 0
  (min_val, buffer') ← quick_select sample_size 0 (sample_size - 1) (percent_1 sample_size) buffer
  (max_val, buffer'') ←
      quick_select sample_size 0 (sample_size - 1) (percent_99 sample_size) buffer'
  some (min_val, max_val)

-- The fields of the class that last from frame to frame.
pub record PseudoAdaptiveMapper (fl : Floats) : Type 0 where
  pub smoothed_min : fl.F
  pub smoothed_max : fl.F
  pub initialized : Bool

module _ (fl : Floats) where
  abbrev pub float_of : ℕ → fl.F
  float_of n = fl.of_ℤ (pos n)

  -- The constructor.
  abbrev pub new_mapper : PseudoAdaptiveMapper fl
  new_mapper = record {
    smoothed_min = float_of 0;
    smoothed_max = float_of 65535;
    initialized = false;
  }

  -- `UpdateRange` once the statistics of the frame are known; `alpha` is ALPHA, and MIN_RANGE is 1000.
  unfoldable pub smooth : fl.F → ℕ → ℕ → PseudoAdaptiveMapper fl → PseudoAdaptiveMapper fl
  smooth alpha frame_min frame_max m =
      let keep = fl.sub (float_of 1) alpha in
      let lo = fl.add (fl.mul keep m.smoothed_min) (fl.mul alpha (float_of frame_min)) in
      let hi = fl.add (fl.mul keep m.smoothed_max) (fl.mul alpha (float_of frame_max)) in
      let center = fl.div (fl.add hi lo) (float_of 2) in
      if not m.initialized
      then record {
        smoothed_min = float_of frame_min;
        smoothed_max = float_of frame_max;
        initialized = true;
      }
      else if fl.lt (fl.sub hi lo) (float_of 1000)
      then record m {
        smoothed_min = fl.sub center (float_of 500);
        smoothed_max = fl.add center (float_of 500);
      }
      else record m { smoothed_min = lo; smoothed_max = hi }

  -- `UpdateRange`
  unfoldable pub update_range :
      fl.F
      → (ℕ → ℕ)
      → (ℕ → ℕ)
      → List ℕ
      → ℕ
      → ℕ
      → PseudoAdaptiveMapper fl
      → Option (PseudoAdaptiveMapper fl)
  unfolding smooth calculate_frame_stats_hist
  update_range alpha percent_1 percent_99 input width height m = do
    (frame_min, frame_max) ← calculate_frame_stats_hist percent_1 percent_99 input (width * height)
    some (smooth alpha frame_min frame_max m)

  -- `GetScale`
  unfoldable pub get_scale : PseudoAdaptiveMapper fl → fl.F
  get_scale m = fl.div (float_of 255) (fl.sub m.smoothed_max m.smoothed_min)
