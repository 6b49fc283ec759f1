-- ===== src/Config/Entries/Refinement.antt =====
-- `Read_Temp_Params` computes what the entries of the file say.
use pre.Config.Text.{trim, fgets_all, cut, sscanf}
use pre.Config.Params.{
  TempParams, Reading, ini_max_lines, assign, read_trimmed, read_line, read_lines, read_temp_params,
}
use pre.Config.Entries.{
  Section, outside, quadratic, ln, Param, quadratic_a, quadratic_b, quadratic_c, ln_a, ln_b, index,
  param_of, section_of, with_value, meaning, meaning_of, cons_if, entries, present, complete,
  latest, given,
}
use pre.Prelude.{
  ltb, ◌==◌, if◌then◌else◌, ltb→lt, Option-cases, all_below, all_below_sound, conjuncts, ℕ, ◌-◌,
  ◌/◌, ◌%◌, ◌<◌, bit_or, ◌≡◌, refl, ap, ◌∙◌, inl, inr, Bool, true, false, not, ◌&&◌, ◌||◌, Option,
  none, some, List, [], ◌∷◌, arith,
}
use pre.Prelude.Int.{pos, negsuc}

-- The bit of a parameter.
abbrev flag : Param → ℕ
flag quadratic_a = 1
flag quadratic_b = 2
flag quadratic_c = 4
flag ln_a = 8
flag ln_b = 16

abbrev seen : Param → ℕ → Bool
seen q n = n / flag q % 2 == 1

-- Setting the flag of one parameter, by a table.
abbrev agrees : Bool → Bool → Bool
agrees true b = b
agrees false b = not b

abbrev sets : Param → ℕ → Param → Bool
sets p n q = agrees (seen q (bit_or n (flag p))) (index q == index p || seen q n)

abbrev of_all : (Param → Bool) → Bool
of_all f = f quadratic_a && f quadratic_b && f quadratic_c && f ln_a && f ln_b

of_all_sound : (f : Param → Bool) (q : Param) → of_all f ≡ true → f q ≡ true
of_all_sound f quadratic_a h = ground arith
of_all_sound f quadratic_b h = ground arith
of_all_sound f quadratic_c h = ground arith
of_all_sound f ln_a h = ground arith
of_all_sound f ln_b h = ground arith

abbrev sets_flag : Param → ℕ → Bool
sets_flag p n = ltb (bit_or n (flag p)) 32 && of_all (sets p n)

table : (p : Param) → all_below 32 (sets_flag p) ≡ true
table quadratic_a = refl
table quadratic_b = refl
table quadratic_c = refl
table ln_a = refl
table ln_b = refl

agrees_sound : (a b : Bool) → agrees a b ≡ true → a ≡ b
agrees_sound a b h = ground arith

flag_fits : (p : Param) (n : ℕ) → n < 32 → bit_or n (flag p) < 32
flag_fits p n h = ltb→lt _ _ (conjuncts _ _ (all_below_sound 32 (sets_flag p) n (table p) h)).0

flag-seen :
    (p q : Param) (n : ℕ) → n < 32 → seen q (bit_or n (flag p)) ≡ (index q == index p || seen q n)
flag-seen p q n h =
    agrees_sound _ _
      (of_all_sound (sets p n) q (conjuncts _ _ (all_below_sound 32 (sets_flag p) n (table p) h)).1)

-- All five flags are set exactly at 31.
all_seen : (n : ℕ) → n < 32 → (n == 31) ≡ of_all (λ q. seen q n)
all_seen n h =
    agrees_sound _ _ (all_below_sound 32 (λ n. agrees (n == 31) (of_all (λ q. seen q n))) n refl h)

-- The section that the two flags of the loop stand for.
abbrev in_section : Bool → Bool → Section
in_section true l = quadratic
in_section false true = ln
in_section false false = outside

module _ {F : Type 0} (atof : List ℕ → F) where
  abbrev store : Param → List ℕ → TempParams F → TempParams F
  store quadratic_a value tm = record tm { quadratic_a = atof value }
  store quadratic_b value tm = record tm { quadratic_b = atof value }
  store quadratic_c value tm = record tm { quadratic_c = atof value }
  store ln_a value tm = record tm { ln_a = atof value }
  store ln_b value tm = record tm { ln_b = atof value }

  -- What an entry does to the parameters and the flags.
  abbrev enter : Option (Param × List ℕ) → TempParams F × ℕ → TempParams F × ℕ
  enter none r = r
  enter (some (p, value)) (tm, n) = (store p value tm, bit_or n (flag p))

  abbrev section : Reading F → Section
  section r = in_section r.in_quadratic r.in_ln

  assign_enters :
      (key value : List ℕ) (r : Reading F)
      → (section (assign atof key value r) ≡ section r)
        × ((assign atof key value r).tm
            ≡ (enter (with_value (param_of (section r) key) value) (r.tm, r.params_read)).0)
        × ((assign atof key value r).params_read
            ≡ (enter (with_value (param_of (section r) key) value) (r.tm, r.params_read)).1)
  unfolding assign param_of
  assign_enters key value r = ground arith

  read_trimmed_enters :
      (line : List ℕ) (r : Reading F)
      → (section (read_trimmed atof line r) ≡ (meaning (section r) line).0)
        × ((read_trimmed atof line r).tm
            ≡ (enter ((meaning (section r) line).1) (r.tm, r.params_read)).0)
        × ((read_trimmed atof line r).params_read
            ≡ (enter ((meaning (section r) line).1) (r.tm, r.params_read)).1)
  unfolding read_trimmed meaning section_of
  read_trimmed_enters line r = elim (Option-cases (sscanf line)) [
    | inl e ↦ ground (arith, e)
    | inr ((key, value), e) ↦ ground (arith, e, assign_enters (trim key) (trim value) r)
  ]

  read_line_enters :
      (piece : List ℕ) (r : Reading F)
      → (section (read_line atof piece r) ≡ (meaning_of (section r) piece).0)
        × ((read_line atof piece r).tm
            ≡ (enter ((meaning_of (section r) piece).1) (r.tm, r.params_read)).0)
        × ((read_line atof piece r).params_read
            ≡ (enter ((meaning_of (section r) piece).1) (r.tm, r.params_read)).1)
  unfolding read_line meaning_of
  read_line_enters piece r = ground (arith, read_trimmed_enters (trim (cut piece)) r)

  -- The rounds of the loop, as a fold over the entries.
  abbrev enter_all : List (Param × List ℕ) → TempParams F × ℕ → TempParams F × ℕ
  enter_all [] r = r
  enter_all (e ∷ es) r = enter_all es (enter (some e) r)

  enter-cons_if :
      (e : Option (Param × List ℕ)) (es : List (Param × List ℕ)) (r : TempParams F × ℕ)
      → enter_all (cons_if e es) r ≡ enter_all es (enter e r)
  enter-cons_if none es r = refl
  enter-cons_if (some e) es r = refl

  read_lines_enters :
      (pieces : List (List ℕ)) (r : Reading F)
      → ((read_lines atof pieces r).tm, (read_lines atof pieces r).params_read)
        ≡ enter_all (entries (section r) pieces) (r.tm, r.params_read)
  unfolding read_lines entries
  read_lines_enters [] r = refl
  read_lines_enters (piece ∷ pieces) r =
      read_lines_enters pieces (read_line atof piece r)
      ∙ grind (
        arith,
        read_line_enters piece r,
        enter-cons_if ((meaning_of (section r) piece).1)
            (entries ((meaning_of (section r) piece).0) pieces) (r.tm, r.params_read),
      )

  given-store :
      (p : Param) (v : List ℕ) (tm : TempParams F) (es : List (Param × List ℕ))
      → given atof (store p v tm) es ≡ given atof tm ((p, v) ∷ es)
  unfolding given latest
  given-store quadratic_a v tm es = refl
  given-store quadratic_b v tm es = refl
  given-store quadratic_c v tm es = refl
  given-store ln_a v tm es = refl
  given-store ln_b v tm es = refl

  enter_all-given :
      (es : List (Param × List ℕ)) (tm : TempParams F) (n : ℕ)
      → (enter_all es (tm, n)).0 ≡ given atof tm es
  unfolding given latest
  enter_all-given [] tm n = refl
  enter_all-given ((p, v) ∷ es) tm n =
      enter_all-given es (store p v tm) (bit_or n (flag p)) ∙ given-store p v tm es

  enter_all-seen :
      (es : List (Param × List ℕ)) (tm : TempParams F) (n : ℕ) (q : Param)
      → n < 32
      → ((enter_all es (tm, n)).1 < 32)
        × (seen q ((enter_all es (tm, n)).1) ≡ (present q es || seen q n))
  unfolding present
  enter_all-seen [] tm n q h = (h, refl)
  enter_all-seen ((p, v) ∷ es) tm n q h =
      let (fits, e) = enter_all-seen es (store p v tm) (bit_or n (flag p)) q (flag_fits p n h) in
      (fits, ground (arith, e, flag-seen p q n h))

  enter_all-complete :
      (es : List (Param × List ℕ)) (tm : TempParams F)
      → ((enter_all es (tm, 0)).1 == 31) ≡ complete es
  unfolding complete
  enter_all-complete es tm = ground (
    arith,
    all_seen ((enter_all es (tm, 0)).1) (enter_all-seen es tm 0 ln_a (omega arith)).0,
    (enter_all-seen es tm 0 quadratic_a (omega arith)).1,
    (enter_all-seen es tm 0 quadratic_b (omega arith)).1,
    (enter_all-seen es tm 0 quadratic_c (omega arith)).1,
    (enter_all-seen es tm 0 ln_a (omega arith)).1,
    (enter_all-seen es tm 0 ln_b (omega arith)).1,
  )

  -- Of a file that opens, `Read_Temp_Params` sets each parameter to the last value that the file gives
  -- it in its section, and leaves the default of those it does not give; it returns 0 where the file
  -- gives all five, else -1.
  pub read_temp_params_lem :
      (defaults : TempParams F) (text : List ℕ)
      → let es = entries outside (fgets_all ini_max_lines (ini_max_lines - 1) text) in
        read_temp_params atof defaults true (some text)
        ≡ (if complete es then pos 0 else negsuc 0, given atof defaults es)
  unfolding read_temp_params
  read_temp_params_lem defaults text =
      let pieces = fgets_all ini_max_lines (ini_max_lines - 1) text in
      let start : Reading F = record {
        tm = defaults;
        in_quadratic = false;
        in_ln = false;
        params_read = 0;
      } in
      let es = entries outside pieces in
      let e = read_lines_enters pieces start in
      ap (λ (r : TempParams F × ℕ). (if r.1 == 31 then pos 0 else negsuc 0, r.0)) e
      ∙ ap (λ b. (if b then pos 0 else negsuc 0, (enter_all es (defaults, 0)).0))
          (enter_all-complete es defaults)
      ∙ ap (λ tm. (if complete es then pos 0 else negsuc 0, tm)) (enter_all-given es defaults 0)
