-- ===== src/Picture/Tests.antt =====
-- The theorems on a frame at concrete inputs.
use pre.Picture.{Picture, FrameReplies}
use pre.Picture.Laws.{IsWhole}
use pre.Gas.{Thresholds}
use pre.Range.{new_mapper}
use pre.Config.Samples.{usr}
use pre.Cl.Samples.{no_tmcl, no_diff_cl, no_filter_cl, no_pseudo_cl}
use pre.Cl.PseudoLut.{no_buffers}
use pre.Lut.{empty_lut}
use pre.Cl.Kernel.{run}
use pre.Cl.Kernel
use pre.Prelude.Floats.{whole}
use pre.Prelude.{
  ltb, if◌then◌else◌, replicate, ◌-◌, ◌*◌, ◌/◌, refl, true, false, List, [], ◌∷◌, arith,
}

abbrev cv : Thresholds
cv = record { to_zero = λ v t. if ltb t v then v else 0; trunc = λ v t. if ltb t v then t else v }

abbrev replies_of : {A : Type 0} → List A → Kernel.Replies A
replies_of xs = record {
  write_ok = true;
  args_ok = true;
  kernel_ok = true;
  read_ok = true;
  result = xs;
}

abbrev pub replies : FrameReplies whole
replies = record {
  tm = replies_of (30 ∷ 31 ∷ []);
  diff = replies_of (5 ∷ 6 ∷ []);
  cv = cv;
  median_blur = λ xs. xs;
  run = record {
    write_input = true;
    write_temps = true;
    write_uv_maps = true;
    args = true;
    kernel = true;
    read = true;
  };
  lut = record {
    y_ok = true;
    u_ok = true;
    v_ok = true;
    write_y = true;
    write_u = true;
    write_v = true;
  };
  planes = λ drawn old. old;
  mean = replies_of (1 ∷ 2 ∷ []);
  alpha = 0;
  percent_1 = λ n. n / 100;
  percent_99 = λ n. n * 99 / 100;
  min_idx = λ n. 0;
  max_idx = λ n. n - 1;
}

abbrev pub frame : Picture whole
frame = record {
  usr = record usr { gas_enhancement_software = true; mean_filter = true };
  locked = false;
  algo_in = 7 ∷ 8 ∷ [];
  shm_out_float = 0 ∷ 0 ∷ [];
  y = 0 ∷ 0 ∷ [];
  uv = 0 ∷ [];
  g_diff_result = 0 ∷ 0 ∷ [];
  last_frame = 0 ∷ 0 ∷ [];
  mapper = new_mapper whole;
  luts = replicate 8 empty_lut;
  lut_buffers = no_buffers;
  tm_cl = no_tmcl;
  diff_cl = record no_diff_cl { initialized = true };
  pseudo_cl = no_pseudo_cl;
  filter_cl = no_filter_cl;
}

pub frame-IsWhole : IsWhole replies 2 1 frame
frame-IsWhole = record {
  thresholds = record { zero_at = λ v t. refl; trunc_at = λ v t. refl };
  tm_read = refl;
  diff_read = refl;
  mean_read = refl;
  blur_keeps = λ xs. refl;
  planes_keep = λ drawn y uv. refl;
  mode = (0, refl);
  ordered = (omega arith, omega arith);
  input_fits = omega arith;
  float_fits = omega arith;
  y_fits = omega arith;
  uv_fits = omega arith;
  diff_fits = omega arith;
}
