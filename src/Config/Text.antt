-- ===== src/Config/Text.antt =====
-- The text handling of src/config/config.c: the pieces that `fgets` reads, `trim`, and the
-- `sscanf` of a key and its value. A C string is the list of its bytes before the NUL.
use pre.Prelude.{
  leb, ◌==◌, if◌then◌else◌, ℕ, ◌-◌, Bool, true, false, not, ◌&&◌, ◌||◌, Option, none, some, List,
  [], ◌∷◌,
}

-- `isspace` in the C locale.
unfoldable pub isspace : ℕ → Bool
isspace c = c == 0x20 || (leb 9 c && leb c 13)

-- The bytes before the first one that a test stops at.
unfoldable pub take_until : (ℕ → Bool) → List ℕ → List ℕ
take_until stop [] = []
take_until stop (c ∷ cs) = if stop c then [] else c ∷ take_until stop cs

unfoldable pub drop_while : (ℕ → Bool) → List ℕ → List ℕ
drop_while test [] = []
drop_while test (c ∷ cs) = if test c then drop_while test cs else c ∷ cs

-- The loop of `trim` from the end.
unfoldable pub trim_end : List ℕ → List ℕ
unfolding isspace
trim_end [] = []
trim_end (c ∷ cs) = elim (trim_end cs) [
  | [] ↦ if isspace c then [] else c ∷ []
  | d ∷ ds ↦ c ∷ d ∷ ds
]

-- `trim`
unfoldable pub trim : List ℕ → List ℕ
unfolding drop_while trim_end
trim str = trim_end (drop_while isspace str)

-- Puts a byte before the first piece.
unfoldable pub prepend : ℕ → List (List ℕ) → List (List ℕ)
prepend c [] = (c ∷ []) ∷ []
prepend c (piece ∷ pieces) = (c ∷ piece) ∷ pieces

-- What `fgets` into `size` bytes reads, call after call, with `left` bytes left in the first piece:
-- a piece ends after a newline, or when it is full.
unfoldable pub fgets_all : ℕ → ℕ → List ℕ → List (List ℕ)
unfolding prepend
fgets_all size left [] = []
fgets_all size left (c ∷ cs) =
    let full = c == 10 || leb left 1 in
    let rest = fgets_all size (if full then size - 1 else left - 1) cs in
    if full then (c ∷ []) ∷ rest else prepend c rest

-- `line[strcspn(line, "\r\n")] = 0`; `strcspn` stops at a NUL too.
unfoldable pub cut : List ℕ → List ℕ
unfolding take_until
cut line = take_until (λ c. c == 0 || c == 13 || c == 10) line

-- `sscanf(line, "%[^=]=%s", key, value) == 2`: both fields are of at least a byte.
unfoldable pub scan_value : List ℕ → List ℕ → Option (List ℕ × List ℕ)
unfolding take_until drop_while isspace
scan_value key [] = none
scan_value [] (c ∷ cs) = none
scan_value (k ∷ ks) (c ∷ cs) = elim (take_until isspace (drop_while isspace cs)) [
  | [] ↦ none
  | d ∷ ds ↦ some (k ∷ ks, d ∷ ds)
]

unfoldable pub sscanf : List ℕ → Option (List ℕ × List ℕ)
unfolding scan_value take_until drop_while
sscanf line = scan_value (take_until (λ c. c == 0x3d) line) (drop_while (λ c. not (c == 0x3d)) line)

-- `strcmp(s, t) == 0`
unfoldable pub same : List ℕ → List ℕ → Bool
same [] [] = true
same [] (t ∷ ts) = false
same (s ∷ ss) [] = false
same (s ∷ ss) (t ∷ ts) = s == t && same ss ts
