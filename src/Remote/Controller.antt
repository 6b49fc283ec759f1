-- ===== src/Remote/Controller.antt =====
-- The commands of src/utils/listen/controller.cpp and controller.h over the user configuration. Text
-- is the list of its bytes.
use pre.Config.User.{
  Pseudo, ironbow_forward, ironbow_reverse, lava_forward, lava_reverse, rainbow_forward,
  rainbow_reverse, rainbowhc_forward, rainbowhc_reverse, white_hot, black_hot, pseudo_number,
  gas_enhancement_min, gas_enhancement_max, UserConfig,
}
use pre.Prelude.{
  ltb, ◌==◌, if◌then◌else◌, ℕ, Bool, true, false, ◌&&◌, Option, none, some, List, [], ◌∷◌,
}
use pre.Prelude.Int.{ℤ, pos, negsuc}

-- `JWrap::AutoFocusDataIR` and the variant of `JWrap::GetValue`.
pub record AutoFocusDataIr : Type 0 where
  pub type_name : List ℕ
  pub enable : List ℕ

pub data Value : Type 0 where
  text : List ℕ → Value
  focus : AutoFocusDataIr → Value

-- `Controller::ErrorCode`
pub data ErrorCode : Type 0 where
  success out_of_bounds obj_not_found invalid_parameter invalid_code : ErrorCode

abbrev pub error_number : ErrorCode → ℤ
error_number success = pos 0
error_number out_of_bounds = negsuc 0
error_number obj_not_found = negsuc 1
error_number invalid_parameter = negsuc 2
error_number invalid_code = negsuc 3

-- `Controller::PseudoMode`, with the two hot modes in the other order than `enum PSEUDO` has them.
pub data PseudoMode : Type 0 where
  mode_ironbow_forward mode_ironbow_reverse mode_lava_forward mode_lava_reverse : PseudoMode
  mode_rainbow_forward mode_rainbow_reverse mode_rainbowhc_forward : PseudoMode
  mode_rainbowhc_reverse mode_black_hot mode_white_hot : PseudoMode

abbrev pub mode_number : PseudoMode → ℕ
mode_number mode_ironbow_forward = 0
mode_number mode_ironbow_reverse = 1
mode_number mode_lava_forward = 2
mode_number mode_lava_reverse = 3
mode_number mode_rainbow_forward = 4
mode_number mode_rainbow_reverse = 5
mode_number mode_rainbowhc_forward = 6
mode_number mode_rainbowhc_reverse = 7
mode_number mode_black_hot = 8
mode_number mode_white_hot = 9

-- The first value of a key, as `std::map::find` gives it for keys that differ.
unfoldable pub find : {K V : Type 0} → (K → K → Bool) → K → List (K × V) → Option V
find eq key [] = none
find eq key ((k, v) ∷ rest) = if eq key k then some v else find eq key rest

-- `std::string::operator==`
unfoldable pub same_text : List ℕ → List ℕ → Bool
same_text [] [] = true
same_text [] (t ∷ ts) = false
same_text (s ∷ ss) [] = false
same_text (s ∷ ss) (t ∷ ts) = s == t && same_text ss ts

abbrev pub same_mode : PseudoMode → PseudoMode → Bool
same_mode a b = mode_number a == mode_number b

-- `Controller::string_to_mode`
abbrev pub string_to_mode : List (List ℕ × PseudoMode)
string_to_mode =
    (
      0x69 ∷ 0x72 ∷ 0x6f ∷ 0x6e ∷ 0x62 ∷ 0x6f ∷ 0x77 ∷ 0x5f ∷ 0x66 ∷ 0x6f ∷ 0x72 ∷ 0x77 ∷ 0x61
          ∷ 0x72 ∷ 0x64 ∷ [],
      mode_ironbow_forward,
    )
    ∷ (
      0x69 ∷ 0x72 ∷ 0x6f ∷ 0x6e ∷ 0x62 ∷ 0x6f ∷ 0x77 ∷ 0x5f ∷ 0x72 ∷ 0x65 ∷ 0x76 ∷ 0x65 ∷ 0x72
          ∷ 0x73 ∷ 0x65 ∷ [],
      mode_ironbow_reverse,
    )
    ∷ (
      0x6c ∷ 0x61 ∷ 0x76 ∷ 0x61 ∷ 0x5f ∷ 0x66 ∷ 0x6f ∷ 0x72 ∷ 0x77 ∷ 0x61 ∷ 0x72 ∷ 0x64 ∷ [],
      mode_lava_forward,
    )
    ∷ (
      0x6c ∷ 0x61 ∷ 0x76 ∷ 0x61 ∷ 0x5f ∷ 0x72 ∷ 0x65 ∷ 0x76 ∷ 0x65 ∷ 0x72 ∷ 0x73 ∷ 0x65 ∷ [],
      mode_lava_reverse,
    )
    ∷ (
      0x72 ∷ 0x61 ∷ 0x69 ∷ 0x6e ∷ 0x62 ∷ 0x6f ∷ 0x77 ∷ 0x5f ∷ 0x66 ∷ 0x6f ∷ 0x72 ∷ 0x77 ∷ 0x61
          ∷ 0x72 ∷ 0x64 ∷ [],
      mode_rainbow_forward,
    )
    ∷ (
      0x72 ∷ 0x61 ∷ 0x69 ∷ 0x6e ∷ 0x62 ∷ 0x6f ∷ 0x77 ∷ 0x5f ∷ 0x72 ∷ 0x65 ∷ 0x76 ∷ 0x65 ∷ 0x72
          ∷ 0x73 ∷ 0x65 ∷ [],
      mode_rainbow_reverse,
    )
    ∷ (
      0x72 ∷ 0x61 ∷ 0x69 ∷ 0x6e ∷ 0x62 ∷ 0x6f ∷ 0x77 ∷ 0x68 ∷ 0x63 ∷ 0x5f ∷ 0x66 ∷ 0x6f ∷ 0x72
          ∷ 0x77 ∷ 0x61 ∷ 0x72 ∷ 0x64 ∷ [],
      mode_rainbowhc_forward,
    )
    ∷ (
      0x72 ∷ 0x61 ∷ 0x69 ∷ 0x6e ∷ 0x62 ∷ 0x6f ∷ 0x77 ∷ 0x68 ∷ 0x63 ∷ 0x5f ∷ 0x72 ∷ 0x65 ∷ 0x76
          ∷ 0x65 ∷ 0x72 ∷ 0x73 ∷ 0x65 ∷ [],
      mode_rainbowhc_reverse,
    )
    ∷ (0x62 ∷ 0x6c ∷ 0x61 ∷ 0x63 ∷ 0x6b ∷ 0x5f ∷ 0x68 ∷ 0x6f ∷ 0x74 ∷ [], mode_black_hot)
    ∷ (0x77 ∷ 0x68 ∷ 0x69 ∷ 0x74 ∷ 0x65 ∷ 0x5f ∷ 0x68 ∷ 0x6f ∷ 0x74 ∷ [], mode_white_hot)
    ∷ []

-- `Controller::mode_to_pseudo`
abbrev pub mode_to_pseudo : List (PseudoMode × Pseudo)
mode_to_pseudo =
    (mode_ironbow_forward, ironbow_forward)
    ∷ (mode_ironbow_reverse, ironbow_reverse)
    ∷ (mode_lava_forward, lava_forward)
    ∷ (mode_lava_reverse, lava_reverse)
    ∷ (mode_rainbow_forward, rainbow_forward)
    ∷ (mode_rainbow_reverse, rainbow_reverse)
    ∷ (mode_rainbowhc_forward, rainbowhc_forward)
    ∷ (mode_rainbowhc_reverse, rainbowhc_reverse)
    ∷ (mode_black_hot, black_hot)
    ∷ (mode_white_hot, white_hot)
    ∷ []

module _ {F : Type 0} where
  -- `Set_Pseudo` of a mode.
  unfoldable pub set_pseudo_mode : PseudoMode → UserConfig F → ErrorCode × UserConfig F
  unfolding find
  set_pseudo_mode mode usr = elim (find same_mode mode mode_to_pseudo) [
    | some p ↦ (success, record usr { pseudo = pos (pseudo_number p) })
    | none ↦ (out_of_bounds, usr)
  ]

  -- `Set_Pseudo` of what a message holds.
  unfoldable pub set_pseudo : Value → UserConfig F → ErrorCode × UserConfig F
  unfolding set_pseudo_mode find same_text
  set_pseudo (text val) usr = elim (find same_text val string_to_mode) [
    | some mode ↦ set_pseudo_mode mode usr
    | none ↦ (obj_not_found, usr)
  ]
  set_pseudo (focus val) usr = (invalid_parameter, usr)

  -- `Set_Gas_Enhancement`; `atoi` is that of the C library.
  unfoldable pub set_gas_enhancement :
      (List ℕ → ℤ) → Value → UserConfig F → ErrorCode × UserConfig F
  set_gas_enhancement atoi (text val) usr = elim (atoi val) [
    | pos p_enhance ↦
        if ltb gas_enhancement_min p_enhance && ltb p_enhance gas_enhancement_max
        then (success, record usr { gas_enhancement = p_enhance })
        else (obj_not_found, usr)
    | negsuc k ↦ (obj_not_found, usr)
  ]
  set_gas_enhancement atoi (focus val) usr = (invalid_parameter, usr)

-- `Set_IR_Focus`, which changes nothing.
unfoldable pub set_ir_focus : Value → ErrorCode
unfolding same_text
set_ir_focus (text val) = invalid_parameter
set_ir_focus (focus val) =
    if same_text val.enable (0x31 ∷ [])
    then (if same_text val.type_name (0x73 ∷ 0x69 ∷ 0x6e ∷ 0x67 ∷ 0x6c ∷ 0x65 ∷ [])
        then success
        else if same_text val.type_name (0x63 ∷ 0x6f ∷ 0x6e ∷ 0x74 ∷ 0x69 ∷ 0x6e ∷ 0x75 ∷ 0x65 ∷ [])
        then success
        else invalid_parameter)
    else if same_text val.enable (0x30 ∷ [])
    then success
    else invalid_parameter
