-- ===== src/Config/Samples.antt =====
-- A configuration for the examples.
use pre.Prelude.Int.{pos}
use pre.Config.Params.{TempParams}
use pre.Config.User.{UserConfig}
use pre.Prelude.{ℕ, false, [], ◌∷◌}

abbrev pub defaults : TempParams ℕ
defaults = record {
  quadratic_a = 1;
  quadratic_b = 2;
  quadratic_c = 3;
  ln_a = 4;
  ln_b = 5;
  ln_epsilon = 6;
}

abbrev pub usr : UserConfig ℕ
usr = record {
  pseudo = pos 0;
  gas_enhancement = 1;
  in_focus = false;
  mean_filter = false;
  gas_enhancement_software = false;
  tm = defaults;
  color_bar_max = 1;
  color_bar_min = 0;
  isothermal = false;
  isothermal_threshold_max = 40;
  isothermal_threshold_min = 30;
  isothermal_uv_map = 0 ∷ 0 ∷ 128 ∷ 128 ∷ 255 ∷ 255 ∷ [];
}
