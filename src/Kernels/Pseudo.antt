-- ===== src/Kernels/Pseudo.antt =====
-- The kernels of src/config/cl/pseudo.cl.
use pre.Kernels.{Planes, nv12_item}
use pre.Kernels.Values.{Device, of_ℕ}
use pre.Prelude.{
  if◌then◌else◌, ◌>>=◌, get_elem?, ℕ, ◌+◌, ◌-◌, ◌*◌, ◌/◌, ◌%◌, ◌^◌, min, Option, some, List,
}
use pre.Prelude.Int.{ℤ, pos, pos_part}
use pre.Prelude.Floats.{Floats}

-- The arguments of `color_map_nv12`, most of which the other kernels have too.
pub record Arguments (fl : Floats) : Type 0 where
  pub input : List ℕ
  pub scale : fl.F
  pub min_val : fl.F
  pub lut_y : List ℕ
  pub lut_u : List ℕ
  pub lut_v : List ℕ
  pub lut_size : ℕ
  pub width : ℕ
  pub height : ℕ
  pub scale_min : fl.F
  pub scale_max : fl.F

-- Those that only `color_map_isotherms` has.
pub record Isotherms (fl : Floats) : Type 0 where
  pub temps : List fl.F
  pub threshold_min : fl.F
  pub threshold_max : fl.F
  pub uv_maps : List ℕ

-- `clamp(i, 0, lut_size - 1)` of ints, for a table that is not empty
abbrev pub clamp_index : ℕ → ℤ → ℕ
clamp_index lut_size i = min (pos_part i) (lut_size - 1)

-- The pixels of the square of a work-item.
abbrev pub square : {A : Type 0} → List A → ℕ → ℕ → ℕ → Option (A × A × A × A)
square xs width x y = do
  a ← get_elem? xs (y * 2 * width + x * 2)
  b ← get_elem? xs (y * 2 * width + (x * 2 + 1))
  c ← get_elem? xs ((y * 2 + 1) * width + x * 2)
  d ← get_elem? xs ((y * 2 + 1) * width + (x * 2 + 1))
  some (a, b, c, d)

module _ (fl : Floats) (dev : Device fl) where
  -- `clamp((v - min_val) * scale, 0, 255)`
  unfoldable pub mapped : Arguments fl → ℕ → fl.F
  mapped a v =
      dev.clamp (fl.mul (fl.sub (of_ℕ fl dev v) a.min_val) a.scale) (of_ℕ fl dev 0)
        (of_ℕ fl dev 255)

  -- `color_idx_f`
  unfoldable pub color_idx_f : Arguments fl → ℕ → fl.F
  color_idx_f a v = fl.div (fl.mul (mapped a v) (of_ℕ fl dev (a.lut_size - 1))) (of_ℕ fl dev 255)

  -- `color_idx` of `color_map_nv12`
  unfoldable pub color_idx : Arguments fl → ℕ → ℕ
  color_idx a v =
      let lut_min = fl.mul a.scale_min (of_ℕ fl dev a.lut_size) in
      let lut_max = fl.mul a.scale_max (of_ℕ fl dev a.lut_size) in
      let idx = color_idx_f a v in
      clamp_index a.lut_size (
        if dev.le idx lut_min
        then pos 0
        else if dev.le lut_max idx
        then pos (a.lut_size - 1)
        else dev.to_int (
            fl.div (fl.mul (fl.sub idx lut_min) (of_ℕ fl dev (a.lut_size - 1)))
              (fl.sub lut_max lut_min)))

  -- `y_out` of `color_map_nv12`
  unfoldable pub color_map_y : Arguments fl → ℕ → ℕ → Option ℕ
  color_map_y a x y = do v ← get_elem? a.input (y * a.width + x); get_elem? a.lut_y (color_idx a v)

  -- `uv_out` of `color_map_nv12`
  unfoldable pub color_map_uv : Arguments fl → ℕ → ℕ → Option (ℕ × ℕ)
  color_map_uv a x y = do
    (p, q, r, s) ← square a.input a.width x y
    let uv_color_idx = color_idx a ((p + q + r + s) / 4)
    u ← get_elem? a.lut_u uv_color_idx
    v ← get_elem? a.lut_v uv_color_idx
    some (u, v)

  -- `color_map_nv12`
  unfoldable pub color_map_nv12 : Arguments fl → ℕ × ℕ → Planes → Option Planes
  color_map_nv12 a = nv12_item a.width a.height (color_map_y a) (color_map_uv a)

  -- `y_out` of `white_hot_nv12`
  unfoldable pub white_hot_y : Arguments fl → ℕ → ℕ → Option ℕ
  white_hot_y a x y = do
    v ← get_elem? a.input (y * a.width + x)
    some (fl.to_ℕ (mapped a v) % 2 ^ 8)

  -- `y_out` of `black_hot_nv12`
  unfoldable pub black_hot_y : Arguments fl → ℕ → ℕ → Option ℕ
  black_hot_y a x y = do
    v ← get_elem? a.input (y * a.width + x)
    some (255 - fl.to_ℕ (mapped a v) % 2 ^ 8)

  -- No colour difference.
  abbrev pub no_colour : ℕ → ℕ → Option (ℕ × ℕ)
  no_colour x y = some (128, 128)

  -- `white_hot_nv12` and `black_hot_nv12`
  unfoldable pub white_hot_nv12 : Arguments fl → ℕ × ℕ → Planes → Option Planes
  white_hot_nv12 a = nv12_item a.width a.height (white_hot_y a) no_colour

  unfoldable pub black_hot_nv12 : Arguments fl → ℕ × ℕ → Planes → Option Planes
  black_hot_nv12 a = nv12_item a.width a.height (black_hot_y a) no_colour

  -- `y_out` of `color_map_isotherms`
  unfoldable pub isotherms_y : Arguments fl → ℕ → ℕ → Option ℕ
  isotherms_y a x y = do
    v ← get_elem? a.input (y * a.width + x)
    get_elem? a.lut_y (clamp_index a.lut_size (dev.to_int (color_idx_f a v)))

  -- `mask + 1` for an average temperature
  unfoldable pub mask : Isotherms fl → fl.F → ℕ
  mask i avg_temp =
      if fl.lt avg_temp i.threshold_min then 0 else if fl.lt i.threshold_max avg_temp then 2 else 1

  -- `avg_temp`
  abbrev pub average : fl.F × fl.F × fl.F × fl.F → fl.F
  average (p, q, r, s) =
      fl.mul (fl.add (fl.add (fl.add (fl.add (of_ℕ fl dev 0) p) q) r) s)
        (fl.div (of_ℕ fl dev 1) (of_ℕ fl dev 4))

  -- `uv_out` of `color_map_isotherms`
  unfoldable pub isotherms_uv : Isotherms fl → Arguments fl → ℕ → ℕ → Option (ℕ × ℕ)
  isotherms_uv i a x y = do
    temps ← square i.temps a.width x y
    u ← get_elem? i.uv_maps (mask i (average temps) * 2)
    v ← get_elem? i.uv_maps (mask i (average temps) * 2 + 1)
    some (u, v)

  -- `color_map_isotherms`
  unfoldable pub color_map_isotherms : Isotherms fl → Arguments fl → ℕ × ℕ → Planes → Option Planes
  color_map_isotherms i a = nv12_item a.width a.height (isotherms_y a) (isotherms_uv i a)
