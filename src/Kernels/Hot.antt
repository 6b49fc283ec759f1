-- ===== src/Kernels/Hot.antt =====
-- The two kernels of src/config/cl/pseudo.cl that draw without colour.
use pre.Kernels.{Planes, run_items}
use pre.Kernels.Order.{In, index_in_range}
use pre.Kernels.Laws.{pair_at, where_square, where_square-eq, nv12_draws, there, Fits}
use pre.Kernels.Values.{Device}
use pre.Kernels.Pseudo.{
  Arguments, mapped, white_hot_y, black_hot_y, no_colour, white_hot_nv12, black_hot_nv12,
}
use pre.Prelude.{
  length, get_elem?, ℕ, ◌+◌, ◌-◌, ◌*◌, ◌%◌, ◌^◌, ◌≤◌, ◌<◌, ◌≡◌, refl, ◌∙◌, some, List, arith,
}
use pre.Prelude.Floats.{Floats}

module _ (fl : Floats) (dev : Device fl) (a : Arguments fl) where
  white_hot_y_there :
      (x y : ℕ)
      → a.width * a.height ≤ length a.input
      → x < a.width
      → y < a.height
      → (m : ℕ) × (white_hot_y fl dev a x y ≡ some m)
        × (m ≤ 255)
        × (black_hot_y fl dev a x y ≡ some (255 - m))
  unfolding white_hot_y black_hot_y
  white_hot_y_there x y fits h k =
      let (v, e) =
        there 0 a.input (y * a.width + x)
          (omega (arith, index_in_range a.width a.height x y h k, fits)) in
      (fl.to_ℕ (mapped fl dev a v) % 2 ^ 8, rw e refl, omega arith, rw e refl)

  -- Over the same arguments `white_hot_nv12` and `black_hot_nv12`, each in any order of its
  -- work-items, access nothing out of range; where both have a work-item inside of the picture, the one
  -- has a byte there and the other 255 less that byte, and where its square is inside of the picture
  -- both have 128 for U and V.
  pub hot_lem :
      (items items' : List (ℕ × ℕ)) (out out' : Planes) (x y : ℕ)
      → In (x, y) items
      → In (x, y) items'
      → x < a.width
      → y < a.height
      → Fits a out
      → Fits a out'
      → (w : Planes) × (b : Planes) × (m : ℕ) × (run_items (white_hot_nv12 fl dev a) items out
          ≡ some w)
        × (run_items (black_hot_nv12 fl dev a) items' out' ≡ some b)
        × (m ≤ 255)
        × (get_elem? w.y_out (y * a.width + x) ≡ some m)
        × (get_elem? b.y_out (y * a.width + x) ≡ some (255 - m))
        × (where_square a.width a.height x y (pair_at w.uv_out (y * a.width + x * 2))
            ≡ where_square a.width a.height x y (some (128, 128)))
        × (where_square a.width a.height x y (pair_at b.uv_out (y * a.width + x * 2))
            ≡ where_square a.width a.height x y (some (128, 128)))
  unfolding white_hot_nv12 black_hot_nv12
  hot_lem items items' out out' x y i i' h k fits fits' =
      let (w, ew, drawn) =
        nv12_draws a.width a.height (white_hot_y fl dev a) (no_colour fl dev) items out
          (λ x y h k. let (m, e, l, e') = white_hot_y_there x y fits.input h k in (m, e))
          (λ x y h k. ((128, 128), refl)) fits.y fits.uv in
      let (b, eb, drawn') =
        nv12_draws a.width a.height (black_hot_y fl dev a) (no_colour fl dev) items' out'
          (λ x y h k. let (m, e, l, e') = white_hot_y_there x y fits.input h k in (255 - m, e'))
          (λ x y h k. ((128, 128), refl)) fits'.y fits'.uv in
      let (m, e, l, e') = white_hot_y_there x y fits.input h k in
      let square_eq = where_square-eq a.width a.height x y in
      (
        w,
        b,
        m,
        ew,
        eb,
        l,
        (drawn (x, y) i).0 h k ∙ e,
        (drawn' (x, y) i').0 h k ∙ e',
        square_eq _ _ ((drawn (x, y) i).1),
        square_eq _ _ ((drawn' (x, y) i').1),
      )
