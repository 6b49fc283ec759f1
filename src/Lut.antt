-- ===== src/Lut.antt =====
-- The colour tables of src/config/lut/lut.c and lut.h: a file of B, G, R triples is converted to
-- separate Y, U and V tables. What the C library answers is given by an `Io`: a file, and whether
-- each allocation succeeds.
pub mod Colour
pub mod Laws
mod Tests
use pre.Lut.Colour.{to_u8, rgb2y, rgb2u, rgb2v}
use pre.Prelude.{
  ltb, leb, ◌==◌, if◌then◌else◌, length, set, get_or, ℕ, zero, suc, ◌+◌, ◌*◌, ◌/◌, Bool, not, ◌||◌,
  Option, none, some, List, [], ◌∷◌, map,
}
use pre.Prelude.Int.{ℤ, pos, negsuc}

-- `struct YUV420P_LUT`; `none` is NULL.
pub record Lut : Type 0 where
  pub y : Option (List ℕ)
  pub u : Option (List ℕ)
  pub v : Option (List ℕ)
  pub size : ℕ

-- LUT_TYPE_COUNT
abbrev pub lut_type_count : ℕ
lut_type_count = 8

pub record Io : Type 0 where
  -- the content of the file, `none` where `fopen` fails
  pub file : Option (List ℕ)
  -- what `fread` returns
  pub fread_len : ℕ
  pub malloc_rgb : Bool
  pub malloc_y : Bool
  pub malloc_u : Bool
  pub malloc_v : Bool

abbrev pub empty_lut : Lut
empty_lut = record { y = none; u = none; v = none; size = 0 }

-- The conversion loop at index `i`, with the rounds left: what it stores by one of the macros.
pub convert_from : (ℕ → ℕ → ℕ → ℤ) → List ℕ → ℕ → ℕ → List ℕ
convert_from f rgb_data zero i = []
convert_from f rgb_data (suc left) i =
    let b = get_or rgb_data (i * 3) 0 in
    let g = get_or rgb_data (i * 3 + 1) 0 in
    let r = get_or rgb_data (i * 3 + 2) 0 in to_u8 (f r g b) ∷ convert_from f rgb_data left (i + 1)

-- `init_single_lut`: the status and the new table.
unfoldable pub init_single_lut : Io → Lut → ℤ × Lut
init_single_lut io lut = elim file [
  | none ↦ (negsuc 0, lut)
  | some rgb_data ↦
      let file_size = length rgb_data in
      let color_count = file_size / 3 in
      if not malloc_rgb
      then (negsuc 0, lut)
      else if not (fread_len == file_size)
      then (negsuc 0, lut)
      else if not malloc_y || not malloc_u || not malloc_v
      then (negsuc 0, record lut { y = none; u = none; v = none })
      else (
        pos 0,
        record {
          y = some (convert_from rgb2y rgb_data color_count 0);
          u = some (convert_from rgb2u rgb_data color_count 0);
          v = some (convert_from rgb2v rgb_data color_count 0);
          size = color_count;
        },
      )
]
  where
    open io use {file, fread_len, malloc_rgb, malloc_y, malloc_u, malloc_v}

-- `free_single_lut`
unfoldable pub free_single_lut : Lut → Lut
free_single_lut lut = empty_lut

-- An access to `luts` at a negative index is out of range, which C leaves undefined.
pub data Outcome (A : Type 0) : Type 0 where
  done : A → Outcome A
  out_of_range : Outcome A

-- `Free_LUT`, over `static struct YUV420P_LUT luts[LUT_TYPE_COUNT]`.
unfoldable pub free_lut : ℤ → List Lut → Outcome (List Lut)
unfolding free_single_lut
free_lut (negsuc k) luts = out_of_range
free_lut (pos t) luts =
    if ltb t lut_type_count
    then done (set luts t (free_single_lut (get_or luts t empty_lut)))
    else done luts

-- `Init_LUT`, which first calls `Free_LUT`.
unfoldable pub init_lut : Io → ℤ → List Lut → Outcome (ℤ × List Lut)
unfolding init_single_lut free_lut
init_lut io (negsuc k) luts = out_of_range
init_lut io (pos t) luts =
    if leb lut_type_count t then done (negsuc 0, luts) else elim (free_lut (pos t) luts) [
      | out_of_range ↦ out_of_range
      | done freed ↦
          let (ret, lut) = init_single_lut io (get_or freed t empty_lut) in
          done (ret, set freed t lut)
    ]

-- `Free_All_LUTs`
pub free_all_luts : List Lut → List Lut
unfolding free_single_lut
free_all_luts luts = map free_single_lut luts

-- `Get_LUT`: NULL past the tables.
pub get_lut : ℤ → List Lut → Outcome (Option Lut)
get_lut (negsuc k) luts = out_of_range
get_lut (pos t) luts =
    if leb lut_type_count t then done none else done (some (get_or luts t empty_lut))
