-- ===== src/Config/Printing.antt =====
-- A file of parameters as it is written, and what `Read_Temp_Params` of src/config/config.c reads
-- from it.
pub mod Words
pub mod Entries
use pre.Config.Printing.Words.{
  is_word, is_blank, is_line, is_line-append, is_word-is_line, is_blank-is_line, fgets_all-line,
  cut-line, trim_end-word, trim_end-blank, trim_end-value, trim_end-append, drop_while-blank,
  take_until-blank, drop_while-key, take_until-word, drop_while-word,
}
use pre.Config.Printing.Entries.{
  KeyLine, Around, entry, section, tail_of, IsKeyLine, IsAround, read-entry, read-section,
}
use pre.Config.Text.{
  isspace, take_until, drop_while, trim_end, trim, fgets_all, cut, scan_value, sscanf, same,
}
use pre.Config.Params.{
  TempParams, Reading, quadratic_name, ln_name, assign, read_trimmed, read_line, read_lines,
  read_temp_params,
}
use pre.Prelude.{
  ◌==◌, ◌+◌, get_or, length-append, sym, if◌then◌else◌, conjuncts, length, ℕ, ◌-◌, ◌<◌, bit_or, ◌≡◌,
  refl, ap, ◌∙◌, Bool, true, false, not, ◌&&◌, ◌||◌, some, List, [], ◌∷◌, ◌++◌, arith,
}
use pre.Prelude.Int.{pos, negsuc}

-- Puts a line before the others.
abbrev pub put_line : List ℕ → List ℕ → List ℕ
put_line line rest = line ++ 10 ∷ rest

abbrev pub printed : Around → KeyLine → KeyLine → KeyLine → Around → KeyLine → KeyLine → List ℕ
printed sq qa qb qc sl la lb = put_line (section quadratic_name sq) (
    put_line (entry 0x61 qa) (
      put_line (entry 0x62 qb) (
        put_line (entry 0x63 qc) (
          put_line (section ln_name sl) (put_line (entry 0x61 la) (put_line (entry 0x62 lb) []))))))

module _ {F : Type 0} (atof : List ℕ → F) where
  assign-quadratic :
      (qa qb qc : List ℕ) (r : Reading F)
      → r.in_quadratic ≡ true
      → assign atof (0x63 ∷ []) qc (assign atof (0x62 ∷ []) qb (assign atof (0x61 ∷ []) qa r))
        ≡ record r {
          tm = record (r.tm) {
            quadratic_a = atof qa;
            quadratic_b = atof qb;
            quadratic_c = atof qc;
          };
          params_read = bit_or (bit_or (bit_or r.params_read 1) 2) 4;
        }
  unfolding assign same
  assign-quadratic qa qb qc r h = ground (arith, h)

  assign-ln :
      (la lb : List ℕ) (r : Reading F)
      → r.in_quadratic ≡ false
      → r.in_ln ≡ true
      → assign atof (0x62 ∷ []) lb (assign atof (0x61 ∷ []) la r) ≡ record r {
        tm = record (r.tm) { ln_a = atof la; ln_b = atof lb };
        params_read = bit_or (bit_or r.params_read 8) 16;
      }
  unfolding assign same
  assign-ln la lb r h h' = ground (arith, h, h')

  -- From a file that consists of the two sections, and in them the keys a, b, c and a, b with the texts
  -- of five numbers, one to a line and in this order, with spaces and tabs around the names of
  -- the sections, the keys and the values, `Read_Temp_Params` returns 0 and exactly these numbers,
  -- with the default of epsilon.
  pub read_temp_params-printed :
      (defaults : TempParams F) (sq : Around) (qa qb qc : KeyLine) (sl : Around) (la lb : KeyLine)
      → IsAround sq
      → IsKeyLine qa
      → IsKeyLine qb
      → IsKeyLine qc
      → IsAround sl
      → IsKeyLine la
      → IsKeyLine lb
      → read_temp_params atof defaults true (some (printed sq qa qb qc sl la lb)) ≡ (
        pos 0,
        record {
          quadratic_a = atof (qa.value);
          quadratic_b = atof (qb.value);
          quadratic_c = atof (qc.value);
          ln_a = atof (la.value);
          ln_b = atof (lb.value);
          ln_epsilon = defaults.ln_epsilon;
        },
      )
  unfolding read_temp_params is_word isspace same
  read_temp_params-printed defaults sq qa qb qc sl la lb vs va vb vc vl vd ve =
      let r0 : Reading F = record {
        tm = defaults;
        in_quadratic = false;
        in_ln = false;
        params_read = 0;
      } in
      let r1 : Reading F = record r0 { in_quadratic = true } in
      let tm : TempParams F = record defaults {
        quadratic_a = atof (qa.value);
        quadratic_b = atof (qb.value);
        quadratic_c = atof (qc.value);
      } in
      let r2 : Reading F = record {
        tm = tm;
        in_quadratic = false;
        in_ln = true;
        params_read = 7;
      } in
      let text_b = put_line (entry 0x62 lb) [] in
      let text_ln = put_line (entry 0x61 la) text_b in
      let text_l = put_line (section ln_name sl) text_ln in
      let text_c = put_line (entry 0x63 qc) text_l in
      let text_q = put_line (entry 0x62 qb) text_c in
      let ra = assign atof (0x61 ∷ []) (qa.value) r1 in
      let e =
        read-section atof (tail_of quadratic_name) (put_line (entry 0x61 qa) text_q) sq r0 refl vs
          (omega arith)
        ∙ read-entry atof 0x61 qa text_q r1 refl va
        ∙ read-entry atof 0x62 qb text_c ra refl vb
        ∙ read-entry atof 0x63 qc text_l (assign atof (0x62 ∷ []) (qb.value) ra) refl vc
        ∙ ap (λ q. read_lines atof (fgets_all 256 255 text_l) q)
            (assign-quadratic (qa.value) (qb.value) (qc.value) r1 refl)
        ∙ read-section atof (tail_of ln_name) text_ln sl (record r1 { tm = tm; params_read = 7 })
            refl vl (omega arith)
        ∙ read-entry atof 0x61 la text_b r2 refl vd
        ∙ read-entry atof 0x62 lb [] (assign atof (0x61 ∷ []) (la.value) r2) refl ve
        ∙ ap (λ q. read_lines atof (fgets_all 256 255 []) q)
            (assign-ln (la.value) (lb.value) r2 refl refl) in
      ap (λ (r : Reading F). (if r.params_read == 31 then pos 0 else negsuc 0, r.tm)) e
