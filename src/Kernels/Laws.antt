-- ===== src/Kernels/Laws.antt =====
-- What the kernels of src/config/cl/pseudo.cl draw, in whatever order their work-items run.
use pre.Kernels.{Planes, nv12_item, run_items}
use pre.Kernels.Order.{In, index_in_range}
use pre.Kernels.Nv12.{nv12_run_lem}
use pre.Kernels.Values.{Device}
use pre.Kernels.Pseudo.{
  Arguments, clamp_index, square, color_idx, color_map_y, color_map_uv, color_map_nv12,
}
use pre.Prelude.{
  ltb, if◌then◌else◌, Bool-cases, ◌>>=◌, length, get_elem?, get_or, get_elem?-eq-get_or, ℕ, ◌+◌,
  ◌*◌, ◌/◌, ◌≤◌, ◌<◌, ◌≡◌, refl, sym, ◌∙◌, inl, inr, ◌&&◌, Option, none, some, List, arith,
}
use pre.Prelude.Int.{ℤ}
use pre.Prelude.Floats.{Floats}

-- Two entries of a buffer, if both are there.
abbrev pub pair_at : List ℕ → ℕ → Option (ℕ × ℕ)
pair_at out i = do u ← get_elem? out i; v ← get_elem? out (i + 1); some (u, v)

-- For the pixel and the square of a work-item, a picture holds the values that a kernel has there.
abbrev pub Drawn : ℕ → ℕ → (ℕ → ℕ → Option ℕ) → (ℕ → ℕ → Option (ℕ × ℕ)) → ℕ × ℕ → Planes → Type 0
Drawn width height y_value uv_value (x, y) out =
    (x < width → y < height → get_elem? out.y_out (y * width + x) ≡ y_value x y)
    × (x < width / 2 → y < height / 2 → pair_at out.uv_out (y * width + x * 2) ≡ uv_value x y)

-- A value for the square of a work-item, if there is one for it.
abbrev pub where_square : {A : Type 0} → ℕ → ℕ → ℕ → ℕ → Option A → Option A
where_square width height x y o = if ltb x (width / 2) && ltb y (height / 2) then o else none

pub where_square-eq :
    {A : Type 0} (width height x y : ℕ) (o o' : Option A)
    → (x < width / 2 → y < height / 2 → o ≡ o')
    → where_square width height x y o ≡ where_square width height x y o'
where_square-eq width height x y o o' h =
    elim (Bool-cases (ltb x (width / 2) && ltb y (height / 2))) [
      | inl inside ↦ rw inside (h (ground (arith, inside)) (ground (arith, inside)))
      | inr outside ↦ rw outside refl
    ]

-- The value of an `Option`, where there is one.
abbrev pub value_of : {A : Type 0} → A → Option A → A
value_of d none = d
value_of d (some a) = a

pub value_of_lem :
    {A : Type 0} (d : A) (o : Option A) → ((a : A) × (o ≡ some a)) → o ≡ some (value_of d o)
value_of_lem d none (a, e) = absurd (ground (arith, e))
value_of_lem d (some b) h = refl

module _ (width height : ℕ) (y_value : ℕ → ℕ → Option ℕ) (uv_value : ℕ → ℕ → Option (ℕ × ℕ)) where
  pub nv12_draws :
      (items : List (ℕ × ℕ)) (out : Planes)
      → ((x y : ℕ) → x < width → y < height → (v : ℕ) × (y_value x y ≡ some v))
      → ((x y : ℕ) → x < width / 2 → y < height / 2 → (r : ℕ × ℕ) × (uv_value x y ≡ some r))
      → width * height ≤ length out.y_out
      → width * (height / 2) ≤ length out.uv_out
      → (out' : Planes) × (run_items (nv12_item width height y_value uv_value) items out
          ≡ some out')
        × ((p : ℕ × ℕ) → In p items → Drawn width height y_value uv_value p out')
  nv12_draws items out y_there uv_there y_fits uv_fits =
      let yr : ℕ → ℕ → ℕ = λ x y. value_of 0 (y_value x y) in
      let uvr : ℕ → ℕ → ℕ × ℕ = λ x y. value_of (0, 0) (uv_value x y) in
      let y_total = λ (x y : ℕ) (h : x < width) (k : y < height).
        value_of_lem 0 (y_value x y) (y_there x y h k) in
      let uv_total = λ (x y : ℕ) (h : x < width / 2) (k : y < height / 2).
        value_of_lem (0, 0) (uv_value x y) (uv_there x y h k) in
      let (out', e, facts) =
        nv12_run_lem width height y_value yr y_total uv_value (λ x y. (uvr x y).0)
          (λ x y. (uvr x y).1) uv_total items out y_fits uv_fits in
      (
        out',
        e,
        λ p i.
            let (ys, uvs) = facts p i in
            (
              (λ h k. ys h k ∙ sym (y_total (p.0) (p.1) h k)),
              λ h k. let (eu, ev) = uvs h k in ground (arith, eu, ev, uv_total (p.0) (p.1) h k),
            ),
      )

pub clamp_index-lt : (lut_size : ℕ) (i : ℤ) → 0 < lut_size → clamp_index lut_size i < lut_size
clamp_index-lt lut_size i h = omega arith

pub there :
    {A : Type 0} (d : A) (xs : List A) (i : ℕ) → i < length xs → (a : A) × (get_elem? xs i ≡ some a)
there d xs i h = (get_or xs i d, get_elem?-eq-get_or xs i d h)

pub square_there :
    {A : Type 0} (d : A) (xs : List A) (width height x y : ℕ)
    → width * height ≤ length xs
    → x < width / 2
    → y < height / 2
    → (r : A × A × A × A) × (square xs width x y ≡ some r)
square_there d xs width height x y fits h k =
    let at = λ (i j : ℕ) (p : i < width) (q : j < height).
      there d xs (j * width + i) (omega (arith, index_in_range width height i j p q, fits)) in
    let (a, ea) = at (x * 2) (y * 2) (omega arith) (omega arith) in
    let (b, eb) = at (x * 2 + 1) (y * 2) (omega arith) (omega arith) in
    let (c, ec) = at (x * 2) (y * 2 + 1) (omega arith) (omega arith) in
    let (e, ee) = at (x * 2 + 1) (y * 2 + 1) (omega arith) (omega arith) in
    ((a, b, c, e), ground (arith, ea, eb, ec, ee))

-- The sizes of the buffers that the kernels take.
pub record Fits {fl : Floats} (a : Arguments fl) (out : Planes) : Type 0 where
  pub input : a.width * a.height ≤ length a.input
  pub y : a.width * a.height ≤ length out.y_out
  pub uv : a.width * (a.height / 2) ≤ length out.uv_out

module _ (fl : Floats) (dev : Device fl) (a : Arguments fl) where
  color_idx-lt : (v : ℕ) → 0 < a.lut_size → color_idx fl dev a v < a.lut_size
  unfolding color_idx
  color_idx-lt v h = omega arith

  color_map_y_there :
      (x y : ℕ)
      → a.width * a.height ≤ length a.input
      → 0 < a.lut_size
      → length a.lut_y ≡ a.lut_size
      → x < a.width
      → y < a.height
      → (v : ℕ) × (color_map_y fl dev a x y ≡ some v)
  unfolding color_map_y
  color_map_y_there x y fits some_in len h k =
      let (v, e) =
        there 0 a.input (y * a.width + x)
          (omega (arith, index_in_range a.width a.height x y h k, fits)) in
      let (c, e') =
        there 0 a.lut_y (color_idx fl dev a v) (omega (arith, color_idx-lt v some_in, len)) in
      (c, ground (arith, e, e'))

  color_map_uv_there :
      (x y : ℕ)
      → a.width * a.height ≤ length a.input
      → 0 < a.lut_size
      → length a.lut_u ≡ a.lut_size
      → length a.lut_v ≡ a.lut_size
      → x < a.width / 2
      → y < a.height / 2
      → (r : ℕ × ℕ) × (color_map_uv fl dev a x y ≡ some r)
  unfolding color_map_uv
  color_map_uv_there x y fits some_in lu lv h k =
      let ((p, q, r, s), e) = square_there 0 a.input a.width a.height x y fits h k in
      let at = color_idx fl dev a ((p + q + r + s) / 4) in
      let in_table = color_idx-lt ((p + q + r + s) / 4) some_in in
      let (u, eu) = there 0 a.lut_u at (omega (arith, in_table, lu)) in
      let (v, ev) = there 0 a.lut_v at (omega (arith, in_table, lv)) in
      ((u, v), rw (e, eu, ev) refl)

  -- At a work-item inside of the picture: of a table that is not empty, whatever the floating-point
  -- operations give, `color_map_nv12` reads and writes nothing out of range, in whatever order its
  -- work-items run and however many more there are; the picture then holds for that work-item the
  -- colours of the table at its index, U and V where its square is inside of the picture.
  pub color_map_lem :
      (items : List (ℕ × ℕ)) (out : Planes) (x y : ℕ)
      → In (x, y) items
      → x < a.width
      → y < a.height
      → Fits a out
      → 0 < a.lut_size
      → length a.lut_y ≡ a.lut_size
      → length a.lut_u ≡ a.lut_size
      → length a.lut_v ≡ a.lut_size
      → (out' : Planes) × (run_items (color_map_nv12 fl dev a) items out ≡ some out')
        × (get_elem? out'.y_out (y * a.width + x) ≡ color_map_y fl dev a x y)
        × (where_square a.width a.height x y (pair_at out'.uv_out (y * a.width + x * 2))
            ≡ where_square a.width a.height x y (color_map_uv fl dev a x y))
  unfolding color_map_nv12
  color_map_lem items out x y i h k fits some_in ly lu lv =
      let (out', e, drawn) =
        nv12_draws a.width a.height (color_map_y fl dev a) (color_map_uv fl dev a) items out
          (λ x y. color_map_y_there x y fits.input some_in ly)
          (λ x y. color_map_uv_there x y fits.input some_in lu lv) fits.y fits.uv in
      (
        out',
        e,
        (drawn (x, y) i).0 h k,
        where_square-eq a.width a.height x y _ _ ((drawn (x, y) i).1),
      )
