-- ===== src/Config/User.antt =====
-- `struct UserConfig` of src/config/include/global.h, what `Init_User_Config` sets, and the modes of
-- src/config/include/enum.h.
use pre.Config.Params.{TempParams}
use pre.Prelude.{ℕ, Bool, false, List, [], ◌∷◌}
use pre.Prelude.Int.{ℤ, pos}
use pre.Prelude.Floats.{Floats}

-- `enum PSEUDO`
pub data Pseudo : Type 0 where
  ironbow_forward ironbow_reverse lava_forward lava_reverse : Pseudo
  rainbow_forward rainbow_reverse rainbowhc_forward rainbowhc_reverse : Pseudo
  white_hot black_hot : Pseudo

abbrev pub pseudo_number : Pseudo → ℕ
pseudo_number ironbow_forward = 0
pseudo_number ironbow_reverse = 1
pseudo_number lava_forward = 2
pseudo_number lava_reverse = 3
pseudo_number rainbow_forward = 4
pseudo_number rainbow_reverse = 5
pseudo_number rainbowhc_forward = 6
pseudo_number rainbowhc_reverse = 7
pseudo_number white_hot = 8
pseudo_number black_hot = 9

-- PSEUDO_NUMS
abbrev pub pseudo_nums : ℕ
pseudo_nums = 10

-- GAS_ENHANCEMENT_MIN, GAS_ENHANCEMENT_NONE and GAS_ENHANCEMENT_MAX
abbrev pub gas_enhancement_min : ℕ
gas_enhancement_min = 0

abbrev pub gas_enhancement_none : ℕ
gas_enhancement_none = 1

abbrev pub gas_enhancement_max : ℕ
gas_enhancement_max = 17

-- `struct UserConfig`, without its mutex.
pub record UserConfig (F : Type 0) : Type 0 where
  pub pseudo : ℤ
  pub gas_enhancement : ℕ
  pub in_focus : Bool
  pub mean_filter : Bool
  pub gas_enhancement_software : Bool
  pub tm : TempParams F
  pub color_bar_max : F
  pub color_bar_min : F
  pub isothermal : Bool
  pub isothermal_threshold_max : F
  pub isothermal_threshold_min : F
  pub isothermal_uv_map : List ℕ

-- `Init_User_Config`: `color_bar_max` is set twice, `color_bar_min` not at all.
unfoldable pub init_user_config : (fl : Floats) → UserConfig fl.F → UserConfig fl.F
init_user_config fl usr =
    let usr' = record usr {
      pseudo = pos (pseudo_number ironbow_forward);
      gas_enhancement = gas_enhancement_none;
      in_focus = false;
      mean_filter = false;
      gas_enhancement_software = false;
      color_bar_max = fl.of_ℤ (pos 0);
    } in
    record usr' {
      color_bar_max = fl.of_ℤ (pos 1);
      isothermal = false;
      isothermal_threshold_max = fl.of_ℤ (pos 40);
      isothermal_threshold_min = fl.of_ℤ (pos 30);
      isothermal_uv_map = 0 ∷ 0 ∷ 128 ∷ 128 ∷ 255 ∷ 255 ∷ [];
    }
