-- ===== src/Config/Printing/Words.antt =====
-- The words, blanks and lines of a file of parameters, through the text handling of
-- src/config/config.c.
use pre.Config.Text.{isspace, take_until, drop_while, trim_end, fgets_all, cut}
use pre.Prelude.{
  ◌==◌, conjuncts, length, ℕ, ◌-◌, ◌<◌, ◌≡◌, refl, ◌∙◌, Bool, true, false, not, ◌&&◌, ◌||◌, List,
  [], ◌∷◌, ◌++◌, arith,
}

-- A word has no NUL and no white space, an end of line included.
unfoldable pub is_word : List ℕ → Bool
is_word [] = true
is_word (c ∷ cs) = not (c == 0) && not (isspace c) && is_word cs

-- Spaces and tabs.
unfoldable pub is_blank : List ℕ → Bool
is_blank [] = true
is_blank (c ∷ cs) = (c == 0x20 || c == 9) && is_blank cs

-- The text of a line: no NUL and no end of line.
unfoldable pub is_line : List ℕ → Bool
is_line [] = true
is_line (c ∷ cs) = not (c == 0) && not (c == 10) && not (c == 13) && is_line cs

is_word-cons :
    (c : ℕ) (cs : List ℕ)
    → is_word (c ∷ cs) ≡ true
    → ((c == 0) ≡ false) × (isspace c ≡ false) × (is_word cs ≡ true)
unfolding is_word
is_word-cons c cs h =
    let (a, b) = conjuncts (not (c == 0) && not (isspace c)) (is_word cs) h in
    let (a0, a1) = conjuncts (not (c == 0)) (not (isspace c)) a in
    (ground (arith, a0), ground (arith, a1), b)

is_blank-cons :
    (c : ℕ) (cs : List ℕ)
    → is_blank (c ∷ cs) ≡ true
    → (isspace c ≡ true)
      × ((c == 0x3d) ≡ false)
      × ((not (c == 0) && not (c == 10) && not (c == 13)) ≡ true)
      × (is_blank cs ≡ true)
unfolding is_blank isspace
is_blank-cons c cs h =
    let (a, b) = conjuncts (c == 0x20 || c == 9) (is_blank cs) h in
    (ground (arith, a), ground (arith, a), ground (arith, a), b)

is_line-cons :
    (c : ℕ) (cs : List ℕ)
    → is_line (c ∷ cs) ≡ true
    → ((c == 0) ≡ false) × ((c == 10) ≡ false) × ((c == 13) ≡ false) × (is_line cs ≡ true)
unfolding is_line
is_line-cons c cs h = (ground (arith, h), ground (arith, h), ground (arith, h), ground (arith, h))

pub is_line-append :
    (xs ys : List ℕ) → is_line xs ≡ true → is_line ys ≡ true → is_line (xs ++ ys) ≡ true
unfolding is_line
is_line-append [] ys h h' = h'
is_line-append (x ∷ xs) ys h h' =
    let (a, b, c, d) = is_line-cons x xs h in ground (arith, a, b, c, is_line-append xs ys d h')

pub is_word-is_line : (xs : List ℕ) → is_word xs ≡ true → is_line xs ≡ true
unfolding is_line isspace
is_word-is_line [] h = refl
is_word-is_line (c ∷ cs) h =
    let (a, b, d) = is_word-cons c cs h in ground (arith, a, b, is_word-is_line cs d)

pub is_blank-is_line : (xs : List ℕ) → is_blank xs ≡ true → is_line xs ≡ true
unfolding is_line
is_blank-is_line [] h = refl
is_blank-is_line (c ∷ cs) h =
    let (a, b, e, d) = is_blank-cons c cs h in ground (arith, e, is_blank-is_line cs d)

-- `fgets` reads a line that fits.
pub fgets_all-line :
    (left : ℕ) (line rest : List ℕ)
    → is_line line ≡ true
    → length line < left
    → fgets_all 256 left (line ++ 10 ∷ rest) ≡ (line ++ 10 ∷ []) ∷ fgets_all 256 255 rest
unfolding fgets_all
fgets_all-line left [] rest w h = refl
fgets_all-line left (c ∷ line) rest w h =
    let (c0, c10, c13, w') = is_line-cons c line w in
    ground (arith, fgets_all-line (left - 1) line rest w' (omega arith), c10)

-- The end of the line is cut off.
pub cut-line : (line : List ℕ) → is_line line ≡ true → cut (line ++ 10 ∷ []) ≡ line
unfolding cut take_until
cut-line [] w = refl
cut-line (c ∷ line) w =
    let (c0, c10, c13, w') = is_line-cons c line w in ground (arith, c0, c10, c13, cut-line line w')

pub trim_end-word : (line : List ℕ) → is_word line ≡ true → trim_end line ≡ line
unfolding trim_end
trim_end-word [] w = refl
trim_end-word (c ∷ []) w = let (c0, space, w') = is_word-cons c [] w in ground (arith, space)
trim_end-word (c ∷ d ∷ ds) w =
    let (c0, space, w') = is_word-cons c (d ∷ ds) w in ground (arith, trim_end-word (d ∷ ds) w')

-- Blanks at the end are cut off, and nothing before a word is.
pub trim_end-blank : (xs : List ℕ) → is_blank xs ≡ true → trim_end xs ≡ []
unfolding trim_end
trim_end-blank [] h = refl
trim_end-blank (c ∷ cs) h =
    let (a, b, e, d) = is_blank-cons c cs h in ground (arith, a, trim_end-blank cs d)

trim_end-append_blank : (xs ys : List ℕ) → is_blank ys ≡ true → trim_end (xs ++ ys) ≡ trim_end xs
unfolding trim_end
trim_end-append_blank [] ys h = trim_end-blank ys h
trim_end-append_blank (x ∷ xs) ys h = ground (arith, trim_end-append_blank xs ys h)

pub trim_end-value :
    (v after : List ℕ) → is_word v ≡ true → is_blank after ≡ true → trim_end (v ++ after) ≡ v
trim_end-value v after w h = trim_end-append_blank v after h ∙ trim_end-word v w

pub trim_end-append :
    (xs ys zs : List ℕ) → trim_end ys ≡ zs → 0 < length zs → trim_end (xs ++ ys) ≡ xs ++ zs
unfolding trim_end
trim_end-append [] ys zs e h = e
trim_end-append (x ∷ []) ys [] e h = absurd (omega (arith, h))
trim_end-append (x ∷ []) ys (z ∷ zs) e h = ground (arith, e)
trim_end-append (x ∷ x' ∷ xs) ys zs e h = ground (arith, trim_end-append (x' ∷ xs) ys zs e h)

pub drop_while-blank :
    (xs ys : List ℕ) → is_blank xs ≡ true → drop_while isspace (xs ++ ys) ≡ drop_while isspace ys
unfolding drop_while
drop_while-blank [] ys h = refl
drop_while-blank (x ∷ xs) ys h =
    let (a, b, e, d) = is_blank-cons x xs h in ground (arith, a, drop_while-blank xs ys d)

-- The key ends before the blanks and '='.
pub take_until-blank :
    (xs ys : List ℕ) → is_blank xs ≡ true → take_until (λ c. c == 0x3d) (xs ++ 0x3d ∷ ys) ≡ xs
unfolding take_until
take_until-blank [] ys h = refl
take_until-blank (x ∷ xs) ys h =
    let (a, b, e, d) = is_blank-cons x xs h in ground (arith, b, take_until-blank xs ys d)

pub drop_while-key :
    (xs ys : List ℕ)
    → is_blank xs ≡ true
    → drop_while (λ c. not (c == 0x3d)) (xs ++ 0x3d ∷ ys) ≡ 0x3d ∷ ys
unfolding drop_while
drop_while-key [] ys h = refl
drop_while-key (x ∷ xs) ys h =
    let (a, b, e, d) = is_blank-cons x xs h in ground (arith, b, drop_while-key xs ys d)

pub take_until-word : (v : List ℕ) → is_word v ≡ true → take_until isspace v ≡ v
unfolding take_until
take_until-word [] w = refl
take_until-word (c ∷ cs) w =
    let (c0, space, w') = is_word-cons c cs w in ground (arith, space, take_until-word cs w')

pub drop_while-word : (v : List ℕ) → is_word v ≡ true → drop_while isspace v ≡ v
unfolding drop_while
drop_while-word [] w = refl
drop_while-word (c ∷ cs) w = let (c0, space, w') = is_word-cons c cs w in ground (arith, space)
