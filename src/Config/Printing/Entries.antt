-- ===== src/Config/Printing/Entries.antt =====
-- The lines of a file of parameters with blanks in them, and what a round of `Read_Temp_Params` in
-- src/config/config.c does with one.
use pre.Config.Printing.Words.{
  is_word, is_blank, is_line, is_line-append, is_word-is_line, is_blank-is_line, fgets_all-line,
  cut-line, trim_end-word, trim_end-blank, trim_end-value, trim_end-append, drop_while-blank,
  take_until-blank, drop_while-key, take_until-word, drop_while-word,
}
use pre.Config.Text.{
  isspace, take_until, drop_while, trim_end, trim, fgets_all, scan_value, sscanf, same,
}
use pre.Config.Params.{
  Reading, quadratic_name, ln_name, assign, read_trimmed, read_line, read_lines,
}
use pre.Prelude.{
  ◌==◌, ◌+◌, get_or, length-append, sym, length, ℕ, ◌<◌, ◌≡◌, refl, ap, ◌∙◌, Bool, true, false,
  ◌||◌, some, List, [], ◌∷◌, ◌++◌, arith,
}

-- A key's value as it is written, with the blanks before the key, after it, before the value and
-- after that.
pub record KeyLine : Type 0 where
  pub before : List ℕ
  pub gap : List ℕ
  pub indent : List ℕ
  pub value : List ℕ
  pub after : List ℕ

-- The blanks around the name of a section.
pub record Around : Type 0 where
  pub before : List ℕ
  pub after : List ℕ

abbrev pub entry : ℕ → KeyLine → List ℕ
entry key e = e.before ++ (key ∷ e.gap ++ (0x3d ∷ e.indent ++ (e.value ++ e.after)))

abbrev pub section : List ℕ → Around → List ℕ
section name s = s.before ++ (name ++ s.after)

-- A letter and a word are scanned from both sides of '=', the letter with the blanks after it.
sscanf-entry :
    (key : ℕ) (gap indent v : List ℕ)
    → (key == 0x3d) ≡ false
    → is_blank gap ≡ true
    → is_blank indent ≡ true
    → is_word v ≡ true
    → 0 < length v
    → sscanf (key ∷ gap ++ (0x3d ∷ indent ++ v)) ≡ some (key ∷ gap, v)
unfolding sscanf scan_value take_until drop_while
sscanf-entry key gap indent [] e g i w h = absurd (omega (arith, h))
sscanf-entry key gap indent (c ∷ cs) e g i w h = ground (
  arith,
  e,
  take_until-blank gap (indent ++ c ∷ cs) g,
  drop_while-key gap (indent ++ c ∷ cs) g,
  drop_while-blank indent (c ∷ cs) i,
  take_until-word (c ∷ cs) w,
  drop_while-word (c ∷ cs) w,
)

-- A section's name after its '['.
abbrev pub tail_of : List ℕ → List ℕ
tail_of name = elim name [ [] ↦ [] | c ∷ cs ↦ cs ]

-- The letters of the keys.
abbrev is_letter : ℕ → Bool
is_letter c = c == 0x61 || c == 0x62 || c == 0x63

trim-letter :
    (c : ℕ) (gap : List ℕ) → is_letter c ≡ true → is_blank gap ≡ true → trim (c ∷ gap) ≡ c ∷ []
unfolding trim drop_while trim_end isspace
trim-letter c gap h g = ground (arith, trim_end-blank gap g)

-- A value is a word that is not empty; with the blanks and its key it fits a line.
pub record IsKeyLine (e : KeyLine) : Type 0 where
  pub before_blank : is_blank (e.before) ≡ true
  pub gap_blank : is_blank (e.gap) ≡ true
  pub indent_blank : is_blank (e.indent) ≡ true
  pub after_blank : is_blank (e.after) ≡ true
  pub value_word : is_word (e.value) ≡ true
  pub value_there : 0 < length (e.value)
  pub fits : length (entry 0 e) < 255

pub record IsAround (s : Around) : Type 0 where
  pub before_blank : is_blank (s.before) ≡ true
  pub after_blank : is_blank (s.after) ≡ true
  pub fits : length (s.before) + length (s.after) < 235

trim-word : (v : List ℕ) → is_word v ≡ true → trim v ≡ v
unfolding trim
trim-word v w = ap trim_end (drop_while-word v w) ∙ trim_end-word v w

trim-entry :
    (key : ℕ) (e : KeyLine)
    → is_letter key ≡ true
    → IsKeyLine e
    → trim (entry key e) ≡ key ∷ e.gap ++ (0x3d ∷ e.indent ++ e.value)
unfolding trim
trim-entry key e l h =
    let rest = e.gap ++ (0x3d ∷ e.indent ++ (e.value ++ e.after)) in
    let there : drop_while isspace (key ∷ rest) ≡ key ∷ rest = ground (arith, l) in
    ap trim_end (drop_while-blank (e.before) (key ∷ rest) (h.before_blank) ∙ there)
    ∙ trim_end-append (key ∷ e.gap) (0x3d ∷ e.indent ++ (e.value ++ e.after))
        (0x3d ∷ e.indent ++ e.value)
        (trim_end-append (0x3d ∷ e.indent) (e.value ++ e.after) (e.value)
          (trim_end-value (e.value) (e.after) (h.value_word) (h.after_blank)) (h.value_there))
        (omega arith)

entry-is_line :
    (key : ℕ) (e : KeyLine) → is_letter key ≡ true → IsKeyLine e → is_line (entry key e) ≡ true
unfolding is_line
entry-is_line key e l h =
    let ends =
      is_line-append (e.indent) (e.value ++ e.after) (is_blank-is_line (e.indent) (h.indent_blank))
        (is_line-append (e.value) (e.after) (is_word-is_line (e.value) (h.value_word))
          (is_blank-is_line (e.after) (h.after_blank))) in
    let middle =
      is_line-append (e.gap) (0x3d ∷ e.indent ++ (e.value ++ e.after))
        (is_blank-is_line (e.gap) (h.gap_blank)) (ground (arith, ends)) in
    is_line-append (e.before) (key ∷ e.gap ++ (0x3d ∷ e.indent ++ (e.value ++ e.after)))
      (is_blank-is_line (e.before) (h.before_blank)) (ground (arith, l, middle))

-- The first byte of a line that blanks and then a byte `c` start.
starts :
    (before : List ℕ) (c : ℕ) (rest : List ℕ)
    → is_blank before ≡ true
    → (c == 0 || c == 0x3b) ≡ false
    → (get_or (before ++ c ∷ rest) 0 0 == 0 || get_or (before ++ c ∷ rest) 0 0 == 0x3b) ≡ false
unfolding is_blank
starts [] c rest h e = e
starts (b ∷ bs) c rest h e = ground (arith, h)

length-entry : (key : ℕ) (e : KeyLine) → length (entry key e) ≡ length (entry 0 e)
length-entry key e =
    length-append (e.before) (key ∷ e.gap ++ (0x3d ∷ e.indent ++ (e.value ++ e.after)))
    ∙ sym (length-append (e.before) (0 ∷ e.gap ++ (0x3d ∷ e.indent ++ (e.value ++ e.after))))

module _ {F : Type 0} (atof : List ℕ → F) where
  read_line-entry :
      (key : ℕ) (e : KeyLine) (r : Reading F)
      → is_letter key ≡ true
      → IsKeyLine e
      → read_line atof (entry key e ++ 10 ∷ []) r ≡ assign atof (key ∷ []) (e.value) r
  unfolding read_line read_trimmed
  read_line-entry key e r l h = ground (
    arith,
    l,
    cut-line (entry key e) (entry-is_line key e l h),
    starts (e.before) key (e.gap ++ (0x3d ∷ e.indent ++ (e.value ++ e.after))) (h.before_blank)
        (ground (arith, l)),
    trim-entry key e l h,
    sscanf-entry key (e.gap) (e.indent) (e.value) (ground (arith, l)) (h.gap_blank) (h.indent_blank)
        (h.value_word) (h.value_there),
    trim-letter key (e.gap) l (h.gap_blank),
    trim-word (e.value) (h.value_word),
  )

  -- Reading a file that starts with an entry.
  pub read-entry :
      (key : ℕ) (e : KeyLine) (rest : List ℕ) (r : Reading F)
      → is_letter key ≡ true
      → IsKeyLine e
      → read_lines atof (fgets_all 256 255 (entry key e ++ 10 ∷ rest)) r
        ≡ read_lines atof (fgets_all 256 255 rest) (assign atof (key ∷ []) (e.value) r)
  unfolding read_lines
  read-entry key e rest r l h =
      ap (λ ps. read_lines atof ps r)
        (fgets_all-line 255 (entry key e) rest (entry-is_line key e l h)
          (omega (arith, length-entry key e, h.fits)))
      ∙ ap (λ q. read_lines atof (fgets_all 256 255 rest) q) (read_line-entry key e r l h)

  -- The line of a section's name, which starts with '['.
  read_line-section :
      (name : List ℕ) (s : Around) (r : Reading F)
      → is_word (0x5b ∷ name) ≡ true
      → IsAround s
      → is_line (section (0x5b ∷ name) s) ≡ true
      → read_line atof (section (0x5b ∷ name) s ++ 10 ∷ []) r ≡ record r {
        in_quadratic = same (0x5b ∷ name) quadratic_name;
        in_ln = same (0x5b ∷ name) ln_name;
      }
  unfolding read_line read_trimmed trim drop_while isspace
  read_line-section name s r w h line = ground (
    arith,
    cut-line (section (0x5b ∷ name) s) line,
    starts (s.before) 0x5b (name ++ s.after) (h.before_blank) refl,
    drop_while-blank (s.before) (0x5b ∷ name ++ s.after) (h.before_blank),
    trim_end-value (0x5b ∷ name) (s.after) w (h.after_blank),
  )

  pub read-section :
      (name rest : List ℕ) (s : Around) (r : Reading F)
      → is_word (0x5b ∷ name) ≡ true
      → IsAround s
      → length name < 19
      → read_lines atof (fgets_all 256 255 (section (0x5b ∷ name) s ++ 10 ∷ rest)) r
        ≡ read_lines atof (fgets_all 256 255 rest) (record r {
          in_quadratic = same (0x5b ∷ name) quadratic_name;
          in_ln = same (0x5b ∷ name) ln_name;
        })
  unfolding read_lines
  read-section name rest s r w h short =
      let text = section (0x5b ∷ name) s in
      let line : is_line text ≡ true =
        is_line-append (s.before) (0x5b ∷ name ++ s.after)
          (is_blank-is_line (s.before) (h.before_blank))
          (is_line-append (0x5b ∷ name) (s.after) (is_word-is_line (0x5b ∷ name) w)
            (is_blank-is_line (s.after) (h.after_blank))) in
      ap (λ ps. read_lines atof ps r)
        (fgets_all-line 255 text rest line (
          omega (
            arith,
            length-append (s.before) (0x5b ∷ name ++ s.after),
            length-append name (s.after),
            h.fits,
            short,
          )))
      ∙ ap (λ q. read_lines atof (fgets_all 256 255 rest) q) (read_line-section name s r w h line)
