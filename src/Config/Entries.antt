-- ===== src/Config/Entries.antt =====
-- The reader of parameters against a description of its own: the file as a list of entries.
pub mod Refinement
use pre.Config.Text.{trim, cut, sscanf, same}
use pre.Config.Params.{TempParams, quadratic_name, ln_name}
use pre.Prelude.{
  ◌==◌, if◌then◌else◌, get_or, ℕ, Bool, false, ◌&&◌, ◌||◌, Option, none, some, List, [], ◌∷◌,
}

pub data Section : Type 0 where
  outside quadratic ln : Section

pub data Param : Type 0 where
  quadratic_a quadratic_b quadratic_c ln_a ln_b : Param

abbrev pub index : Param → ℕ
index quadratic_a = 0
index quadratic_b = 1
index quadratic_c = 2
index ln_a = 3
index ln_b = 4

-- The parameter that a key names in a section.
unfoldable pub param_of : Section → List ℕ → Option Param
unfolding same
param_of outside key = none
param_of quadratic key =
    if same key (0x61 ∷ [])
    then some quadratic_a
    else if same key (0x62 ∷ [])
    then some quadratic_b
    else if same key (0x63 ∷ [])
    then some quadratic_c
    else none
param_of ln key =
    if same key (0x61 ∷ []) then some ln_a else if same key (0x62 ∷ []) then some ln_b else none

unfoldable pub section_of : List ℕ → Section
unfolding same
section_of line =
    if same line quadratic_name then quadratic else if same line ln_name then ln else outside

abbrev pub with_value : Option Param → List ℕ → Option (Param × List ℕ)
with_value none value = none
with_value (some p) value = some (p, value)

-- What a trimmed line says in a section: the section after it, and an entry.
unfoldable pub meaning : Section → List ℕ → Section × Option (Param × List ℕ)
unfolding param_of section_of sscanf trim
meaning s line = if get_or line 0 0 == 0x5b then (section_of line, none) else elim (sscanf line) [
  | none ↦ (s, none)
  | some (key, value) ↦ (s, with_value (param_of s (trim key)) (trim value))
]

-- Empty lines and comments say nothing.
unfoldable pub meaning_of : Section → List ℕ → Section × Option (Param × List ℕ)
unfolding meaning cut trim
meaning_of s piece =
    if get_or (cut piece) 0 0 == 0 || get_or (cut piece) 0 0 == 0x3b
    then (s, none)
    else meaning s (trim (cut piece))

abbrev pub cons_if : Option (Param × List ℕ) → List (Param × List ℕ) → List (Param × List ℕ)
cons_if none es = es
cons_if (some e) es = e ∷ es

-- The entries of the pieces of a file.
unfoldable pub entries : Section → List (List ℕ) → List (Param × List ℕ)
unfolding meaning_of
entries s [] = []
entries s (piece ∷ pieces) =
    let rest = entries ((meaning_of s piece).0) pieces in cons_if ((meaning_of s piece).1) rest

unfoldable pub present : Param → List (Param × List ℕ) → Bool
present p [] = false
present p ((q, v) ∷ es) = index p == index q || present p es

-- All five parameters have an entry.
unfoldable pub complete : List (Param × List ℕ) → Bool
unfolding present
complete es =
    present quadratic_a es
    && present quadratic_b es
    && present quadratic_c es
    && present ln_a es
    && present ln_b es

module _ {F : Type 0} (atof : List ℕ → F) where
  -- The value of the last entry for a parameter, else the default.
  unfoldable pub latest : F → Param → List (Param × List ℕ) → F
  latest default p [] = default
  latest default p ((q, v) ∷ es) = latest (if index p == index q then atof v else default) p es

  -- The parameters that the entries give.
  unfoldable pub given : TempParams F → List (Param × List ℕ) → TempParams F
  unfolding latest
  given tm es = record tm {
    quadratic_a = latest tm.quadratic_a quadratic_a es;
    quadratic_b = latest tm.quadratic_b quadratic_b es;
    quadratic_c = latest tm.quadratic_c quadratic_c es;
    ln_a = latest tm.ln_a ln_a es;
    ln_b = latest tm.ln_b ln_b es;
  }
