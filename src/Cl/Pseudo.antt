-- ===== src/Cl/Pseudo.antt =====
-- src/config/cl/pseudo_cl.c: the set-up and the release of the colour mapping.
use pre.Cl.{
  kernel_black_hot, kernel_white_hot, kernel_color_map, kernel_isotherms, d_input, d_y_out,
  d_uv_out, d_lut_y, d_lut_u, d_lut_v, d_temps, d_uv_maps, Event, created, released, made, freed,
  Base, Setup, Init, cleanup_program, set_up, all_made,
}
use pre.Prelude.{if◌then◌else◌, Bool, true, false, not, ◌&&◌, List, [], ◌∷◌, ◌++◌}

-- `PseudoCL`: which handles are not NULL, and the flag. The buffers of the look-up table, which
-- `PseudoCL_ProcessNV12` sizes anew, are those of `pre.Cl.PseudoLut`; here is whether each is there.
pub record PseudoCl : Type 0 where
  pub base : Base
  pub has_black_hot : Bool
  pub has_white_hot : Bool
  pub has_color_map : Bool
  pub has_isotherms : Bool
  pub has_input : Bool
  pub has_y_out : Bool
  pub has_uv_out : Bool
  pub has_lut_y : Bool
  pub has_lut_u : Bool
  pub has_lut_v : Bool
  pub has_temps : Bool
  pub has_uv_maps : Bool
  pub initialized : Bool

-- Whether each call of `PseudoCL_Init` succeeds, in the order of the calls.
pub record Replies : Type 0 where
  pub setup : Setup
  pub black_hot_ok : Bool
  pub white_hot_ok : Bool
  pub color_map_ok : Bool
  pub isotherms_ok : Bool
  pub input_ok : Bool
  pub y_out_ok : Bool
  pub uv_out_ok : Bool
  pub temps_ok : Bool
  pub uv_maps_ok : Bool

-- The labels at which a failed set-up goes on, from `cleanup_kernels` to `cleanup_temps`; the first
-- releases the kernels that are not NULL.
abbrev pub cleanup_kernels : Replies → List Event
cleanup_kernels r =
    freed r.black_hot_ok kernel_black_hot
    ++ freed r.white_hot_ok kernel_white_hot
    ++ freed r.color_map_ok kernel_color_map
    ++ freed r.isotherms_ok kernel_isotherms
    ++ cleanup_program

abbrev pub cleanup_input : Replies → List Event
cleanup_input r = released d_input ∷ cleanup_kernels r

abbrev pub cleanup_y_out : Replies → List Event
cleanup_y_out r = released d_y_out ∷ cleanup_input r

abbrev pub cleanup_uv_out : Replies → List Event
cleanup_uv_out r = released d_uv_out ∷ cleanup_y_out r

abbrev pub cleanup_temps : Replies → List Event
cleanup_temps r = released d_temps ∷ cleanup_uv_out r

-- The buffers of `PseudoCL_Init`, each of which is created where those before it were.
unfoldable pub pseudo_cl_buffers : Replies → PseudoCl → Init PseudoCl
pseudo_cl_buffers r cl =
    if not input_ok
    then (false, record cl { has_input = false }, cleanup_kernels r)
    else if not y_out_ok
    then (
      false,
      record cl { has_input = true; has_y_out = false },
      created d_input ∷ cleanup_input r,
    )
    else if not uv_out_ok
    then (
      false,
      record cl { has_input = true; has_y_out = true; has_uv_out = false },
      created d_input ∷ created d_y_out ∷ cleanup_y_out r,
    )
    else let cl' = record cl { has_input = true; has_y_out = true; has_uv_out = true } in
      if not temps_ok
      then (
        false,
        record cl' { has_temps = false },
        created d_input ∷ created d_y_out ∷ created d_uv_out ∷ cleanup_uv_out r,
      )
      else if not uv_maps_ok
      then (
        false,
        record cl' { has_temps = true; has_uv_maps = false },
        created d_input ∷ created d_y_out ∷ created d_uv_out ∷ created d_temps ∷ cleanup_temps r,
      )
      else (
        true,
        record cl' { has_temps = true; has_uv_maps = true; initialized = true },
        created d_input
            ∷ created d_y_out
            ∷ created d_uv_out
            ∷ created d_temps
            ∷ created d_uv_maps
            ∷ [],
      )
  where
    open r use {input_ok, y_out_ok, uv_out_ok, temps_ok, uv_maps_ok}

-- The four kernels, of which only the last one's status is looked at, and what follows.
unfoldable pub pseudo_cl_built : Replies → PseudoCl → Init PseudoCl
pseudo_cl_built r cl =
    let cl' = record cl {
      has_black_hot = black_hot_ok;
      has_white_hot = white_hot_ok;
      has_color_map = color_map_ok;
      has_isotherms = isotherms_ok;
    } in
    let (ok, after, log) = pseudo_cl_buffers r cl' in
    let kernels =
      made black_hot_ok kernel_black_hot
      ++ made white_hot_ok kernel_white_hot
      ++ made color_map_ok kernel_color_map
      ++ made isotherms_ok kernel_isotherms in
    if not isotherms_ok
    then (false, cl', kernels ++ cleanup_program)
    else (ok, after, kernels ++ log)
  where
    open r use {black_hot_ok, white_hot_ok, color_map_ok, isotherms_ok}

-- `PseudoCL_Init`: a failure from the context on clears the flag.
unfoldable pub pseudo_cl_init : Replies → PseudoCl → Init PseudoCl
pseudo_cl_init r cl =
    let (ok, after, log) =
      set_up r.setup cl.base (λ b. record cl { base = b })
        (pseudo_cl_built r (record cl { base = all_made })) in
    if not ok && (setup.platform && setup.device && setup.context_ok)
    then (ok, record after { initialized = false }, log)
    else (ok, after, log)
  where
    open r use {setup}

-- `PseudoCL_Cleanup`
unfoldable pub pseudo_cl_cleanup : PseudoCl → PseudoCl × List Event
pseudo_cl_cleanup cl = if not cl.initialized then (cl, []) else (
  record cl { initialized = false },
  freed cl.has_input d_input
      ++ freed cl.has_y_out d_y_out
      ++ freed cl.has_uv_out d_uv_out
      ++ freed cl.has_lut_y d_lut_y
      ++ freed cl.has_lut_u d_lut_u
      ++ freed cl.has_lut_v d_lut_v
      ++ freed cl.has_temps d_temps
      ++ freed cl.has_uv_maps d_uv_maps
      ++ freed cl.has_black_hot kernel_black_hot
      ++ freed cl.has_white_hot kernel_white_hot
      ++ freed cl.has_color_map kernel_color_map
      ++ freed cl.has_isotherms kernel_isotherms
      ++ cleanup_program,
)
