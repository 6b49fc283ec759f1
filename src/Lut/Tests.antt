-- ===== src/Lut/Tests.antt =====
-- Tables loaded from short files, and the theorems at inputs that meet their hypotheses.
use pre.Lut.Colour.{rgb2y, rgb2u, rgb2v}
use pre.Lut.{Lut, Io, empty_lut, convert_from, done, out_of_range, init_lut, get_lut}
use pre.Lut.Laws.{IsLoaded, Replaced, init_lut_loads, init_lut_fails_empty}
use pre.Prelude.{set, replicate, ℕ, ◌≡◌, refl, ◌⊎◌, true, false, some, List, [], ◌∷◌, arith}
use pre.Prelude.Int.{ℤ, pos, negsuc, ◌+ℤ◌, ◌-ℤ◌}

-- Black, white and a trailing byte.
abbrev two_colours : List ℕ
two_colours = 0 ∷ 0 ∷ 0 ∷ 255 ∷ 255 ∷ 255 ∷ 7 ∷ []

abbrev good_io : Io
good_io = record {
  file = some two_colours;
  fread_len = 7;
  malloc_rgb = true;
  malloc_y = true;
  malloc_u = true;
  malloc_v = true;
}

abbrev no_tables : List Lut
no_tables = replicate 8 empty_lut

abbrev loaded : Lut
loaded = record {
  y = some (16 ∷ 235 ∷ []);
  u = some (128 ∷ 128 ∷ []);
  v = some (128 ∷ 128 ∷ []);
  size = 2;
}

loads_two : init_lut good_io (pos 3) no_tables ≡ done (pos 0, set no_tables 3 loaded)
unfolding init_lut convert_from rgb2y rgb2u rgb2v ◌+ℤ◌ ◌-ℤ◌
loads_two = refl

refuses_past : init_lut good_io (pos 8) no_tables ≡ done (negsuc 0, no_tables)
unfolding init_lut
refuses_past = refl

-- The guard does not stop a negative type.
negative_type : get_lut (negsuc 0) no_tables ≡ out_of_range
unfolding get_lut
negative_type = refl

init_lut_loads_example :
    (l : Lut) × (luts' : List Lut) × (init_lut good_io (pos 3) no_tables ≡ done (pos 0, luts'))
    × IsLoaded two_colours l
    × Replaced 3 l no_tables luts'
init_lut_loads_example =
    init_lut_loads good_io two_colours 3 no_tables
      (record {
        opened = refl;
        read_all = refl;
        rgb = refl;
        all_y = refl;
        all_u = refl;
        all_v = refl;
      })
      (omega arith) refl

init_lut_fails_empty_example :
    (ret : ℤ) × (l : Lut) × (luts' : List Lut) × (init_lut
        (record good_io { malloc_u = false })
        (pos 3)
        no_tables
      ≡ done (ret, luts'))
    × ((ret ≡ pos 0) ⊎ ((ret ≡ negsuc 0) × (l ≡ empty_lut)))
    × Replaced 3 l no_tables luts'
init_lut_fails_empty_example =
    init_lut_fails_empty (record good_io { malloc_u = false }) 3 no_tables (omega arith) refl
