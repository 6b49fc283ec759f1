-- ===== src/Kernels/Tests.antt =====
-- The theorems on the kernels at concrete inputs, over numbers in place of floats.
use pre.Kernels.{put, plane_item, Planes, uv_item, nv12_item, run_items}
use pre.Kernels.Values.{
  Device, temperature, temperature_exp, diff, mean_row, mean_rows, mean_filter, normalize,
}
use pre.Kernels.Pseudo.{
  Arguments, Isotherms, mapped, color_idx_f, color_idx, color_map_y, color_map_uv, color_map_nv12,
  white_hot_nv12, black_hot_nv12, isotherms_y, mask, isotherms_uv, color_map_isotherms,
}
use pre.Kernels.Laws.{pair_at, where_square, Fits, color_map_lem}
use pre.Kernels.Hot.{hot_lem}
use pre.Kernels.Bilateral.{bilateral_filter, bilateral_rows, bilateral_row, weight, coeff}
use pre.Kernels.Mean.{mean_filter_run}
use pre.Prelude.{
  leb, get_elem?, ℕ, zero, suc, ◌-◌, ◌≤◌, ◌<◌, min, max, ◌≡◌, refl, none, inl, inr, some, List, [],
  ◌∷◌, arith,
}
use pre.Prelude.Int.{pos, negsuc}
use pre.Prelude.Floats.{whole}

abbrev device : Device whole
device = record {
  le = leb;
  clamp = λ v lo hi. min (max v lo) hi;
  fabs = λ v. v;
  fmax = max;
  fmin = min;
  log = λ v. v;
  exp = λ v. v;
  to_int = λ v. pos v;
  millionth = 1;
}

-- Two rows of two pixels, over a table of three colours.
abbrev arguments : Arguments whole
arguments = record {
  input = 10 ∷ 20 ∷ 30 ∷ 400 ∷ [];
  scale = 1;
  min_val = 10;
  lut_y = 16 ∷ 100 ∷ 235 ∷ [];
  lut_u = 128 ∷ 90 ∷ 50 ∷ [];
  lut_v = 128 ∷ 160 ∷ 200 ∷ [];
  lut_size = 3;
  width = 2;
  height = 2;
  scale_min = 0;
  scale_max = 1;
}

abbrev planes : Planes
planes = record { y_out = 0 ∷ 0 ∷ 0 ∷ 0 ∷ []; uv_out = 0 ∷ 0 ∷ [] }

planes-Fits : Fits arguments planes
planes-Fits = record { input = omega arith; y = omega arith; uv = omega arith }

-- The work-items in an order of their own, one past the picture among them.
abbrev items : List (ℕ × ℕ)
items = (1, 1) ∷ (2, 0) ∷ (0, 0) ∷ (0, 1) ∷ (1, 0) ∷ []

-- The hottest pixel has the last colour but one, even with the whole table in use.
colours_drawn :
    run_items (color_map_nv12 whole device arguments) items planes
    ≡ some (record { y_out = 16 ∷ 16 ∷ 16 ∷ 100 ∷ []; uv_out = 128 ∷ 128 ∷ [] })
unfolding run_items color_map_nv12 nv12_item uv_item put color_map_y color_map_uv color_idx
    color_idx_f mapped
colours_drawn = refl

color_map_lem_example :
    (out' : Planes) × (run_items (color_map_nv12 whole device arguments) items planes ≡ some out')
    × (get_elem? out'.y_out 0 ≡ color_map_y whole device arguments 0 0)
    × (where_square 2 2 0 0 (pair_at out'.uv_out 0)
        ≡ where_square 2 2 0 0 (color_map_uv whole device arguments 0 0))
color_map_lem_example =
    color_map_lem whole device arguments items planes 0 0 (inr (inr (inl refl))) (omega arith)
      (omega arith) planes-Fits (omega arith) refl refl refl

abbrev isotherms : Isotherms whole
isotherms = record {
  temps = 20 ∷ 30 ∷ 40 ∷ 50 ∷ [];
  threshold_min = 25;
  threshold_max = 60;
  uv_maps = 100 ∷ 101 ∷ 128 ∷ 128 ∷ 200 ∷ 201 ∷ [];
}

isotherms_drawn :
    run_items (color_map_isotherms whole device isotherms arguments) items planes
    ≡ some (record { y_out = 16 ∷ 16 ∷ 16 ∷ 235 ∷ []; uv_out = 100 ∷ 101 ∷ [] })
unfolding run_items color_map_isotherms nv12_item uv_item put isotherms_y isotherms_uv mask
    color_idx_f mapped
isotherms_drawn = refl

hot_lem_example :
    (w : Planes) × (b : Planes) × (m : ℕ) × (run_items
        (white_hot_nv12 whole device arguments)
        items
        planes
      ≡ some w)
    × (run_items (black_hot_nv12 whole device arguments) ((0, 0) ∷ items) planes ≡ some b)
    × (m ≤ 255)
    × (get_elem? w.y_out 0 ≡ some m)
    × (get_elem? b.y_out 0 ≡ some (255 - m))
    × (where_square 2 2 0 0 (pair_at w.uv_out 0) ≡ where_square 2 2 0 0 (some (128, 128)))
    × (where_square 2 2 0 0 (pair_at b.uv_out 0) ≡ where_square 2 2 0 0 (some (128, 128)))
hot_lem_example =
    hot_lem whole device arguments items ((0, 0) ∷ items) planes planes 0 0 (inr (inr (inl refl)))
      (inl refl) (omega arith) (omega arith) planes-Fits planes-Fits

small_values : (i v : ℕ) → get_elem? (7 ∷ 9 ∷ 8 ∷ 8 ∷ []) i ≡ some v → (7 ≤ v) × (v < 10)
small_values zero v h = ground (arith, h)
small_values (suc zero) v h = ground (arith, h)
small_values (suc (suc zero)) v h = ground (arith, h)
small_values (suc (suc (suc zero))) v h = ground (arith, h)
small_values (suc (suc (suc (suc i)))) v h = ground (arith, h)

mean_of_four : mean_filter (7 ∷ 9 ∷ 8 ∷ 8 ∷ []) 2 2 (pos 3) 0 0 ≡ some 8
unfolding mean_filter mean_rows mean_row
mean_of_four = refl

-- A window of -2 has no pixel: the kernel would divide by 0.
negative_window : mean_filter (7 ∷ 9 ∷ 8 ∷ 8 ∷ []) 2 2 (negsuc 1) 0 0 ≡ none
unfolding mean_filter mean_rows mean_row
negative_window = refl

mean_filter_run_example :
    (out' : List ℕ) × (m : ℕ) × (run_items
        (plane_item 2 2 (mean_filter (7 ∷ 9 ∷ 8 ∷ 8 ∷ []) 2 2 (pos 3)))
        items
        (0 ∷ 0 ∷ 0 ∷ 0 ∷ [])
      ≡ some out')
    × (get_elem? out' 3 ≡ some m)
    × (7 ≤ m)
    × (m < 10)
mean_filter_run_example =
    mean_filter_run (7 ∷ 9 ∷ 8 ∷ 8 ∷ []) (0 ∷ 0 ∷ 0 ∷ 0 ∷ []) 2 2 3 7 10 items 1 1 (inl refl)
      (omega arith) (omega arith) (omega arith) (omega arith) small_values (omega arith)
      (omega arith)

-- A pixel of 0 has the temperature 0; another has B over the difference.
cold_pixel : temperature_exp whole device (0 ∷ 2 ∷ []) 2 9 20 3 0 0 ≡ some 0
unfolding temperature_exp
cold_pixel = refl

warm_pixel : temperature_exp whole device (0 ∷ 2 ∷ []) 2 9 20 3 1 0 ≡ some 6
unfolding temperature_exp
warm_pixel = refl

square_of_three : temperature whole device (3 ∷ []) 1 2 4 1 0 0 ≡ some 31
unfolding temperature
square_of_three = refl

faded : diff whole device (9 ∷ []) (2 ∷ []) 1 3 0 0 ≡ some 3
unfolding diff
faded = refl

-- A value is held between the two bounds first.
normalised : normalize whole device (40 ∷ []) 10 30 1 0 0 ≡ some 65535
unfolding normalize
normalised = refl

-- With weights that are all 1 the filter takes the mean of the part of the window that is in the
-- picture.
abbrev even : Device whole
even = record device { exp = λ v. 1 }

even_weights : bilateral_filter whole even (7 ∷ 9 ∷ 30 ∷ 8 ∷ 8 ∷ 30 ∷ []) 3 2 1 1 0 0 ≡ some 15
unfolding bilateral_filter bilateral_rows bilateral_row weight coeff
even_weights = refl
