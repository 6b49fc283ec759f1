-- ===== src/Kernels/Bilateral.antt =====
-- The value of `bilateral_filter_nv12`, src/config/cl/filter.cl: each neighbour of a pixel has a weight
-- of its distance and one of its difference.
pub mod Bounds
use pre.Kernels.Values.{Device, of_ℕ, rounds}
use pre.Prelude.{
  ltb, leb, if◌then◌else◌, ◌>>=◌, get_elem?, ℕ, zero, suc, ◌+◌, ◌-◌, ◌*◌, ◌%◌, ◌^◌, ◌&&◌, Option,
  some, List,
}
use pre.Prelude.Int.{ℤ, pos, negsuc, pos_part}
use pre.Prelude.Floats.{Floats}

-- The square of the difference of two ints that are not negative.
abbrev pub square_diff : ℕ → ℕ → ℕ
square_diff a b = ((a - b) + (b - a)) * ((a - b) + (b - a))

module _ (fl : Floats) (dev : Device fl) where
  -- What stays the same for all neighbours of a pixel.
  pub record Window : Type 0 where
    pub input : List ℕ
    pub width : ℕ
    pub height : ℕ
    pub x : ℕ
    pub y : ℕ
    pub radius : ℤ
    pub space_coeff : fl.F
    pub range_coeff : fl.F
    pub center_val : ℕ

  -- `weight` of the neighbour at a column and a row, with its value
  unfoldable pub weight : Window → ℕ → ℕ → ℕ → fl.F
  weight w nx ny curr_val =
      let space_dist = of_ℕ fl dev (square_diff nx w.x + square_diff ny w.y) in
      let range_dist = of_ℕ fl dev (square_diff w.center_val curr_val) in
      fl.mul (dev.exp (fl.mul space_dist w.space_coeff)) (dev.exp (fl.mul range_dist w.range_coeff))

  -- The inner loop in a row, where `at` is the column plus the radius: `sum` and `weight_sum` so far.
  unfoldable pub bilateral_row : Window → ℕ → ℕ → ℕ → fl.F → fl.F → Option (fl.F × fl.F)
  unfolding weight
  bilateral_row w ny zero at sum weight_sum = some (sum, weight_sum)
  bilateral_row w ny (suc left) at sum weight_sum =
      let nx = at - pos_part w.radius in
      let counted = (do
        curr_val ← get_elem? w.input (ny * w.width + nx)
        let by = weight w nx ny curr_val
        bilateral_row w ny left (at + 1) (fl.add sum (fl.mul (of_ℕ fl dev curr_val) by))
            (fl.add weight_sum by)) in
      let skipped = bilateral_row w ny left (at + 1) sum weight_sum in
      if leb (pos_part w.radius) at && ltb nx w.width then counted else skipped

  -- The outer loop, where `at` is the row plus the radius.
  unfoldable pub bilateral_rows : Window → ℕ → ℕ → fl.F → fl.F → Option (fl.F × fl.F)
  unfolding bilateral_row
  bilateral_rows w zero at sum weight_sum = some (sum, weight_sum)
  bilateral_rows w (suc left) at sum weight_sum =
      let ny = at - pos_part w.radius in
      let counted = (do
        (sum', weight_sum') ← bilateral_row w ny (rounds w.radius) w.x sum weight_sum
        bilateral_rows w left (at + 1) sum' weight_sum') in
      let skipped = bilateral_rows w left (at + 1) sum weight_sum in
      if leb (pos_part w.radius) at && ltb ny w.height then counted else skipped

  -- -0.5f / (sigma * sigma)
  unfoldable pub coeff : fl.F → fl.F
  coeff sigma = fl.div (fl.div (fl.of_ℤ (negsuc 0)) (of_ℕ fl dev 2)) (fl.mul sigma sigma)

  -- `bilateral_filter_nv12`
  unfoldable pub bilateral_filter : List ℕ → ℕ → ℕ → fl.F → fl.F → ℕ → ℕ → Option ℕ
  unfolding bilateral_rows coeff
  bilateral_filter input width height sigma_space sigma_range x y = do
    center_val ← get_elem? input (y * width + x)
    let radius = dev.to_int (fl.mul (of_ℕ fl dev 2) sigma_space)
    let w : Window = record {
      input = input;
      width = width;
      height = height;
      x = x;
      y = y;
      radius = radius;
      space_coeff = coeff sigma_space;
      range_coeff = coeff sigma_range;
      center_val = center_val;
    }
    (sum, weight_sum) ← bilateral_rows w (rounds radius) y (of_ℕ fl dev 0) (of_ℕ fl dev 0)
    some (fl.to_ℕ (fl.div sum weight_sum) % 2 ^ 8)
