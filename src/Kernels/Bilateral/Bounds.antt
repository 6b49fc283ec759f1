-- ===== src/Kernels/Bilateral/Bounds.antt =====
-- What `bilateral_filter_nv12` accesses.
use pre.Kernels.{plane_item, run_items}
use pre.Kernels.Bilateral.{Window, bilateral_row, bilateral_rows, bilateral_filter, weight, coeff}
use pre.Kernels.Order.{index_in_range, plane_run_lem}
use pre.Kernels.Laws.{value_of, value_of_lem, there}
use pre.Kernels.Values.{Device, of_ℕ, rounds}
use pre.Prelude.{
  ltb, leb, Bool-cases, length, ℕ, zero, suc, ◌+◌, ◌-◌, ◌*◌, ◌%◌, ◌^◌, ◌≤◌, ◌<◌, ◌≡◌, refl, inl,
  inr, ◌&&◌, some, List, arith,
}
use pre.Prelude.Int.{pos_part}
use pre.Prelude.Floats.{Floats}

module _ (fl : Floats) (dev : Device fl) where
  bilateral_row_lem :
      (w : Window fl dev) (ny left at : ℕ) (sum weight_sum : fl.F)
      → w.width * w.height ≤ length w.input
      → ny < w.height
      → (r : fl.F × fl.F) × (bilateral_row fl dev w ny left at sum weight_sum ≡ some r)
  unfolding bilateral_row
  bilateral_row_lem w ny zero at sum weight_sum fits in_y = ((sum, weight_sum), refl)
  bilateral_row_lem w ny (suc left) at sum weight_sum fits in_y =
      let nx = at - pos_part w.radius in
      elim (Bool-cases (leb (pos_part w.radius) at && ltb nx w.width)) [
        | inl inside ↦
            let in_x : nx < w.width = ground (arith, inside) in
            let (v, e) =
              there 0 w.input (ny * w.width + nx)
                (omega (arith, index_in_range w.width w.height nx ny in_x in_y, fits)) in
            let by = weight fl dev w nx ny v in
            let (r, e') =
              bilateral_row_lem w ny left (at + 1) (fl.add sum (fl.mul (of_ℕ fl dev v) by))
                (fl.add weight_sum by) fits in_y in
            (r, rw (inside, e) e')
        | inr outside ↦
            let (r, e') = bilateral_row_lem w ny left (at + 1) sum weight_sum fits in_y in
            (r, rw outside e')
      ]

  bilateral_rows_lem :
      (w : Window fl dev) (left at : ℕ) (sum weight_sum : fl.F)
      → w.width * w.height ≤ length w.input
      → (r : fl.F × fl.F) × (bilateral_rows fl dev w left at sum weight_sum ≡ some r)
  unfolding bilateral_rows
  bilateral_rows_lem w zero at sum weight_sum fits = ((sum, weight_sum), refl)
  bilateral_rows_lem w (suc left) at sum weight_sum fits =
      let ny = at - pos_part w.radius in
      elim (Bool-cases (leb (pos_part w.radius) at && ltb ny w.height)) [
        | inl inside ↦
            let (r, e) =
              bilateral_row_lem w ny (rounds w.radius) w.x sum weight_sum fits
                (ground (arith, inside)) in
            let (r', e') = bilateral_rows_lem w left (at + 1) (r.0) (r.1) fits in
            (r', rw (inside, e) e')
        | inr outside ↦
            let (r, e') = bilateral_rows_lem w left (at + 1) sum weight_sum fits in
            (r, rw outside e')
      ]

  bilateral_filter_lem :
      (input : List ℕ) (width height : ℕ) (sigma_space sigma_range : fl.F) (x y : ℕ)
      → width * height ≤ length input
      → x < width
      → y < height
      → (m : ℕ) × (bilateral_filter fl dev input width height sigma_space sigma_range x y ≡ some m)
  unfolding bilateral_filter
  bilateral_filter_lem input width height sigma_space sigma_range x y fits in_x in_y =
      let (v, e) =
        there 0 input (y * width + x)
          (omega (arith, index_in_range width height x y in_x in_y, fits)) in
      let radius = dev.to_int (fl.mul (of_ℕ fl dev 2) sigma_space) in
      let w : Window fl dev = record {
        input = input;
        width = width;
        height = height;
        x = x;
        y = y;
        radius = radius;
        space_coeff = coeff fl dev sigma_space;
        range_coeff = coeff fl dev sigma_range;
        center_val = v;
      } in
      let (r, e') = bilateral_rows_lem w (rounds radius) y (of_ℕ fl dev 0) (of_ℕ fl dev 0) fits in
      (fl.to_ℕ (fl.div (r.0) (r.1)) % 2 ^ 8, rw (e, e') refl)

  -- Whatever the floating-point operations give and however large the radius is, a run of
  -- `bilateral_filter_nv12` over any work-items accesses nothing out of range.
  pub bilateral_run :
      (input out : List ℕ) (width height : ℕ) (sigma_space sigma_range : fl.F)
      (items : List (ℕ × ℕ))
      → width * height ≤ length input
      → width * height ≤ length out
      → (out' : List ℕ) × (run_items
            (plane_item width height
              (bilateral_filter fl dev input width height sigma_space sigma_range))
            items
            out
          ≡ some out')
        × (length out' ≡ length out)
  bilateral_run input out width height sigma_space sigma_range items fits fits' =
      let value = bilateral_filter fl dev input width height sigma_space sigma_range in
      let (out', e, len, shows) =
        plane_run_lem width height value (λ x y. value_of 0 (value x y))
          (λ x y h k.
            value_of_lem 0 (value x y)
              (bilateral_filter_lem input width height sigma_space sigma_range x y fits h k))
          items out fits' in
      (out', e, len)
