-- ===== src/Kernels/Values.antt =====
-- The values of the kernels that write one plane: src/config/cl/tm.cl, diff.cl and filter.cl.
use pre.Prelude.{
  ltb, leb, ◌==◌, if◌then◌else◌, ◌>>=◌, get_elem?, ℕ, zero, suc, ◌+◌, ◌-◌, ◌*◌, ◌/◌, ◌%◌, ◌^◌, Bool,
  ◌&&◌, Option, none, some, List,
}
use pre.Prelude.Int.{ℤ, pos, negsuc, pos_part}
use pre.Prelude.Floats.{Floats}

-- The built-in functions of OpenCL on floats.
pub record Device (fl : Floats) : Type 0 where
  pub le : fl.F → fl.F → Bool
  pub clamp : fl.F → fl.F → fl.F → fl.F
  pub fabs : fl.F → fl.F
  pub fmax : fl.F → fl.F → fl.F
  pub fmin : fl.F → fl.F → fl.F
  pub log : fl.F → fl.F
  pub exp : fl.F → fl.F
  pub to_int : fl.F → ℤ
  pub millionth : fl.F

module _ (fl : Floats) (dev : Device fl) where
  abbrev pub of_ℕ : ℕ → fl.F
  of_ℕ n = fl.of_ℤ (pos n)

  -- `compute_temperature`
  unfoldable pub temperature : List ℕ → ℕ → fl.F → fl.F → fl.F → ℕ → ℕ → Option fl.F
  temperature input width a b c x y = do
    d ← get_elem? input (y * width + x)
    let val = of_ℕ d
    some (fl.add (fl.add (fl.mul (fl.mul a val) val) (fl.mul b val)) c)

  -- `compute_temperature_exp`
  unfoldable pub temperature_exp : List ℕ → ℕ → fl.F → fl.F → fl.F → ℕ → ℕ → Option fl.F
  temperature_exp input width a b epsilon x y = do
    n ← get_elem? input (y * width + x)
    let d = of_ℕ n
    let denominator = fl.sub (dev.log a) (dev.log (fl.mul epsilon d))
    some (
        if dev.le d (of_ℕ 0)
        then of_ℕ 0
        else if fl.lt (dev.fabs denominator) dev.millionth
        then of_ℕ 0
        else fl.div b denominator)

  -- `compute_diff`
  unfoldable pub diff : List ℕ → List ℕ → ℕ → fl.F → ℕ → ℕ → Option ℕ
  diff current last width rate x y = do
    l ← get_elem? last (y * width + x)
    c ← get_elem? current (y * width + x)
    some (fl.to_ℕ (dev.fabs (fl.sub (of_ℕ c) (fl.mul (of_ℕ l) rate))) % 2 ^ 16)

  -- `normalize_diff`
  unfoldable pub normalize : List ℕ → ℕ → ℕ → ℕ → ℕ → ℕ → Option ℕ
  normalize input min_val max_val width x y = do
    n ← get_elem? input (y * width + x)
    let val = dev.fmin (of_ℕ max_val) (dev.fmax (of_ℕ min_val) (of_ℕ n))
    let above = fl.mul (fl.sub val (of_ℕ min_val)) (of_ℕ 65535)
    some (fl.to_ℕ (fl.div above (fl.sub (of_ℕ max_val) (of_ℕ min_val))) % 2 ^ 16)

-- The inner loop of `mean_filter_nv12` in one row, where `at` is the column plus `half_window`: the
-- sum and the count so far. `none` is an access out of range, or an int that overflows.
unfoldable pub mean_row : List ℕ → ℕ → ℕ → ℕ → ℕ → ℕ → ℕ → ℕ → Option (ℕ × ℕ)
mean_row input width half row zero at sum count = some (sum, count)
mean_row input width half row (suc left) at sum count =
    let counted = (do
      v ← get_elem? input (row * width + (at - half))
      let rest = mean_row input width half row left (at + 1) (sum + v) (count + 1)
      if ltb (sum + v) (2 ^ 31) then rest else none) in
    let skipped = mean_row input width half row left (at + 1) sum count in
    if leb half at && ltb (at - half) width then counted else skipped

-- The outer loop, where `at` is the row plus `half_window`.
unfoldable pub mean_rows : List ℕ → ℕ → ℕ → ℕ → ℕ → ℕ → ℕ → ℕ → ℕ → Option (ℕ × ℕ)
unfolding mean_row
mean_rows input width height half x zero at sum count = some (sum, count)
mean_rows input width height half x (suc left) at sum count =
    let counted = (do
      (sum', count') ← mean_row input width half (at - half) (2 * half + 1) x sum count
      mean_rows input width height half x left (at + 1) sum' count') in
    let skipped = mean_rows input width height half x left (at + 1) sum count in
    if leb half at && ltb (at - half) height then counted else skipped

-- `window_size / 2` of an int, which C rounds towards 0.
abbrev pub half_window : ℤ → ℤ
half_window (pos n) = pos (n / 2)
half_window (negsuc n) = if n == 0 then pos 0 else negsuc ((n + 1) / 2 - 1)

-- The rounds of a loop from `-radius` to `radius`.
abbrev pub rounds : ℤ → ℕ
rounds (pos n) = 2 * n + 1
rounds (negsuc n) = 0

-- `sum / count`: `none` where it divides by 0.
abbrev pub quotient : ℕ → ℕ → Option ℕ
quotient sum count = if count == 0 then none else some (sum / count)

-- `mean_filter_nv12`
unfoldable pub mean_filter : List ℕ → ℕ → ℕ → ℤ → ℕ → ℕ → Option ℕ
unfolding mean_rows
mean_filter input width height window_size x y = do
  let half = half_window window_size
  (sum, count) ← mean_rows input width height (pos_part half) x (rounds half) y 0 0
  q ← quotient sum count
  some (q % 2 ^ 8)
