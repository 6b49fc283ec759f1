-- ===== src/Kernels/Isotherms.antt =====
-- What `color_map_isotherms` of src/config/cl/pseudo.cl draws.
use pre.Kernels.Laws.{Drawn, Fits, nv12_draws, clamp_index-lt, square_there, there}
use pre.Kernels.{Planes, run_items}
use pre.Kernels.Order.{In, index_in_range}
use pre.Kernels.Values.{Device}
use pre.Kernels.Pseudo.{
  Arguments, Isotherms, clamp_index, color_idx_f, isotherms_y, mask, average, isotherms_uv,
  color_map_isotherms,
}
use pre.Prelude.{length, ℕ, ◌+◌, ◌*◌, ◌/◌, ◌≤◌, ◌<◌, ◌≡◌, refl, some, List, arith}
use pre.Prelude.Int.{pos}
use pre.Prelude.Floats.{Floats}

module _ (fl : Floats) (dev : Device fl) (a : Arguments fl) where
  isotherms_y_there :
      (x y : ℕ)
      → a.width * a.height ≤ length a.input
      → 0 < a.lut_size
      → length a.lut_y ≡ a.lut_size
      → x < a.width
      → y < a.height
      → (v : ℕ) × (isotherms_y fl dev a x y ≡ some v)
  unfolding isotherms_y
  isotherms_y_there x y fits some_in len h k =
      let (v, e) =
        there 0 a.input (y * a.width + x)
          (omega (arith, index_in_range a.width a.height x y h k, fits)) in
      let at = clamp_index a.lut_size (dev.to_int (color_idx_f fl dev a v)) in
      let in_table = clamp_index-lt a.lut_size (dev.to_int (color_idx_f fl dev a v)) some_in in
      let (c, e') = there 0 a.lut_y at (omega (arith, in_table, len)) in (c, ground (arith, e, e'))

  mask-lt : (i : Isotherms fl) (t : fl.F) → mask fl dev i t < 3
  unfolding mask
  mask-lt i t = ground arith

  isotherms_uv_there :
      (i : Isotherms fl) (x y : ℕ)
      → a.width * a.height ≤ length i.temps
      → length i.uv_maps ≡ 6
      → x < a.width / 2
      → y < a.height / 2
      → (r : ℕ × ℕ) × (isotherms_uv fl dev i a x y ≡ some r)
  unfolding isotherms_uv
  isotherms_uv_there i x y fits six h k =
      let (ts, e) = square_there (fl.of_ℤ (pos 0)) i.temps a.width a.height x y fits h k in
      let m = mask fl dev i (average fl dev ts) in
      let small = mask-lt i (average fl dev ts) in
      let (u, eu) = there 0 i.uv_maps (m * 2) (omega (arith, small, six)) in
      let (v, ev) = there 0 i.uv_maps (m * 2 + 1) (omega (arith, small, six)) in
      ((u, v), rw (e, eu, ev) refl)

  -- `color_map_isotherms` likewise, with a temperature for each pixel and six entries of `uv_maps`.
  pub color_map_isotherms_lem :
      (i : Isotherms fl) (items : List (ℕ × ℕ)) (out : Planes)
      → Fits a out
      → 0 < a.lut_size
      → length a.lut_y ≡ a.lut_size
      → a.width * a.height ≤ length i.temps
      → length i.uv_maps ≡ 6
      → (out' : Planes) × (run_items (color_map_isotherms fl dev i a) items out ≡ some out')
        × ((p : ℕ × ℕ)
            → In p items
            → Drawn a.width a.height (isotherms_y fl dev a) (isotherms_uv fl dev i a) p out')
  unfolding color_map_isotherms
  color_map_isotherms_lem i items out fits some_in ly t_fits six =
      nv12_draws a.width a.height (isotherms_y fl dev a) (isotherms_uv fl dev i a) items out
        (λ x y. isotherms_y_there x y fits.input some_in ly)
        (λ x y. isotherms_uv_there i x y t_fits six) fits.y fits.uv
