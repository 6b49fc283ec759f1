-- ===== src/Config/Params.antt =====
-- `Read_Temp_Params` of src/config/config.c: the temperature parameters from an INI file. The
-- conversion `atof` of the C library is an argument.
use pre.Config.Text.{trim, fgets_all, cut, sscanf, same}
use pre.Prelude.{
  ◌==◌, if◌then◌else◌, get_or, ℕ, ◌-◌, bit_or, Bool, false, not, ◌||◌, Option, none, some, List, [],
  ◌∷◌,
}
use pre.Prelude.Int.{ℤ, pos, negsuc}

-- `usr.tm.quadratic` and `usr.tm.ln`, of a type `F` of numbers.
pub record TempParams (F : Type 0) : Type 0 where
  pub quadratic_a : F
  pub quadratic_b : F
  pub quadratic_c : F
  pub ln_a : F
  pub ln_b : F
  pub ln_epsilon : F

-- The locals of the loop, with the parameters.
pub record Reading (F : Type 0) : Type 0 where
  pub tm : TempParams F
  pub in_quadratic : Bool
  pub in_ln : Bool
  pub params_read : ℕ

-- INI_MAX_LINES
abbrev pub ini_max_lines : ℕ
ini_max_lines = 256

-- "[Quadratic]" and "[Ln]"
abbrev pub quadratic_name : List ℕ
quadratic_name = 0x5b ∷ 0x51 ∷ 0x75 ∷ 0x61 ∷ 0x64 ∷ 0x72 ∷ 0x61 ∷ 0x74 ∷ 0x69 ∷ 0x63 ∷ 0x5d ∷ []

abbrev pub ln_name : List ℕ
ln_name = 0x5b ∷ 0x4c ∷ 0x6e ∷ 0x5d ∷ []

module _ {F : Type 0} (atof : List ℕ → F) where
  -- The assignments for a key in the current section.
  unfoldable pub assign : List ℕ → List ℕ → Reading F → Reading F
  unfolding same
  assign key value r =
      if r.in_quadratic
      then (if same key (0x61 ∷ [])
          then record r {
            tm = record (r.tm) { quadratic_a = atof value };
            params_read = bit_or r.params_read 1;
          }
          else if same key (0x62 ∷ [])
          then record r {
            tm = record (r.tm) { quadratic_b = atof value };
            params_read = bit_or r.params_read 2;
          }
          else if same key (0x63 ∷ [])
          then record r {
            tm = record (r.tm) { quadratic_c = atof value };
            params_read = bit_or r.params_read 4;
          }
          else r)
      else if r.in_ln
      then (if same key (0x61 ∷ [])
          then record r {
            tm = record (r.tm) { ln_a = atof value };
            params_read = bit_or r.params_read 8;
          }
          else if same key (0x62 ∷ [])
          then record r {
            tm = record (r.tm) { ln_b = atof value };
            params_read = bit_or r.params_read 16;
          }
          else r)
      else r

  -- The round of the loop once the line is trimmed.
  unfoldable pub read_trimmed : List ℕ → Reading F → Reading F
  unfolding assign sscanf trim same
  read_trimmed line r =
      if get_or line 0 0 == 0x5b
      then record r { in_quadratic = same line quadratic_name; in_ln = same line ln_name }
      else elim (sscanf line) [ none ↦ r | some (key, value) ↦ assign (trim key) (trim value) r ]

  -- One round of the loop, for what `fgets` has read.
  unfoldable pub read_line : List ℕ → Reading F → Reading F
  unfolding read_trimmed cut trim
  read_line piece r =
      let line = cut piece in
      if get_or line 0 0 == 0 || get_or line 0 0 == 0x3b then r else read_trimmed (trim line) r

  unfoldable pub read_lines : List (List ℕ) → Reading F → Reading F
  unfolding read_line
  read_lines [] r = r
  read_lines (piece ∷ pieces) r = read_lines pieces (read_line piece r)

  -- `Read_Temp_Params`: the status and `usr.tm`, which is first set to `defaults`. `filepath` is
  -- false for NULL; the content of the file is `none` where `fopen` fails.
  unfoldable pub read_temp_params : TempParams F → Bool → Option (List ℕ) → ℤ × TempParams F
  unfolding read_lines fgets_all
  read_temp_params defaults filepath file =
      if not filepath then (negsuc 0, defaults) else elim file [
        | none ↦ (negsuc 0, defaults)
        | some text ↦
            let r =
              read_lines (fgets_all ini_max_lines (ini_max_lines - 1) text)
                (record { tm = defaults; in_quadratic = false; in_ln = false; params_read = 0 }) in
            (if r.params_read == 31 then pos 0 else negsuc 0, r.tm)
      ]
