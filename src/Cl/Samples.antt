-- ===== src/Cl/Samples.antt =====
-- Structs and replies for the examples.
use pre.Cl.Tm.{Tmcl}
use pre.Cl.Diff.{DiffCl}
use pre.Cl.Filter.{FilterCl}
use pre.Cl.Pseudo.{PseudoCl}
use pre.Cl.Tm
use pre.Cl.Diff
use pre.Cl.Filter
use pre.Cl.Pseudo
use pre.Cl.{Base, Setup}
use pre.Prelude.{true, false}

abbrev pub all_ok : Setup
all_ok = record {
  platform = true;
  device = true;
  context_ok = true;
  queue_ok = true;
  source = true;
  program_ok = true;
  build = true;
}

abbrev pub no_base : Base
no_base = record { has_context = false; has_queue = false; has_program = false }

abbrev pub no_tmcl : Tmcl
no_tmcl = record {
  base = no_base;
  has_kernel_tm = false;
  has_kernel_tm_exp = false;
  has_input = false;
  has_output = false;
  initialized = false;
}

abbrev pub no_diff_cl : DiffCl
no_diff_cl = record {
  base = no_base;
  has_kernel_diff = false;
  has_current = false;
  has_last = false;
  has_output = false;
  has_last_frame = false;
  initialized = false;
}

abbrev pub no_filter_cl : FilterCl
no_filter_cl = record {
  base = no_base;
  has_kernel_mean_filter = false;
  has_kernel_bilateral_filter = false;
  has_input = false;
  has_output = false;
  initialized = false;
}

abbrev pub no_pseudo_cl : PseudoCl
no_pseudo_cl = record {
  base = no_base;
  has_black_hot = false;
  has_white_hot = false;
  has_color_map = false;
  has_isotherms = false;
  has_input = false;
  has_y_out = false;
  has_uv_out = false;
  has_lut_y = false;
  has_lut_u = false;
  has_lut_v = false;
  has_temps = false;
  has_uv_maps = false;
  initialized = false;
}

-- The output buffer fails: the set-up succeeds without it.
abbrev pub tm_replies : Tm.Replies
tm_replies = record {
  setup = all_ok;
  kernel_tm_ok = true;
  kernel_tm_exp_ok = true;
  input_ok = true;
  output_ok = false;
}

abbrev pub diff_replies : Diff.Replies
diff_replies = record {
  setup = all_ok;
  kernel_diff_ok = true;
  current_ok = true;
  last_ok = true;
  output_ok = true;
  malloc_ok = true;
}

abbrev pub filter_replies : Filter.Replies
filter_replies = record {
  setup = all_ok;
  mean_ok = true;
  bilateral_ok = true;
  input_ok = true;
  output_ok = true;
}

-- The temperatures' buffer fails.
abbrev pub pseudo_replies : Pseudo.Replies
pseudo_replies = record {
  setup = all_ok;
  black_hot_ok = true;
  white_hot_ok = false;
  color_map_ok = true;
  isotherms_ok = true;
  input_ok = true;
  y_out_ok = true;
  uv_out_ok = true;
  temps_ok = false;
  uv_maps_ok = true;
}
