-- ===== src/Remote/Names.antt =====
-- The names that `Set_Pseudo` knows.
use pre.Prelude.Int.{pos}
use pre.Remote.Controller.{
  text, success, obj_not_found, PseudoMode, find, same_text, string_to_mode, set_pseudo_mode,
  set_pseudo,
}
use pre.Config.User.{
  Pseudo, ironbow_forward, ironbow_reverse, lava_forward, lava_reverse, rainbow_forward,
  rainbow_reverse, rainbowhc_forward, rainbowhc_reverse, white_hot, black_hot, pseudo_number,
  UserConfig,
}
use pre.Prelude.{
  ◌==◌, Bool-cases, Option-cases, conjuncts, ℕ, ◌≡◌, refl, sym, ap, subst, ◌∙◌, ◌≢◌, ◌⊎◌, inl, inr,
  true, none, some, List, [], ◌∷◌, arith,
}

-- The name of a colour mode in a message.
abbrev pub pseudo_name : Pseudo → List ℕ
pseudo_name ironbow_forward =
    0x69 ∷ 0x72 ∷ 0x6f ∷ 0x6e ∷ 0x62 ∷ 0x6f ∷ 0x77 ∷ 0x5f ∷ 0x66 ∷ 0x6f ∷ 0x72 ∷ 0x77 ∷ 0x61 ∷ 0x72
    ∷ 0x64 ∷ []
pseudo_name ironbow_reverse =
    0x69 ∷ 0x72 ∷ 0x6f ∷ 0x6e ∷ 0x62 ∷ 0x6f ∷ 0x77 ∷ 0x5f ∷ 0x72 ∷ 0x65 ∷ 0x76 ∷ 0x65 ∷ 0x72 ∷ 0x73
    ∷ 0x65 ∷ []
pseudo_name lava_forward =
    0x6c ∷ 0x61 ∷ 0x76 ∷ 0x61 ∷ 0x5f ∷ 0x66 ∷ 0x6f ∷ 0x72 ∷ 0x77 ∷ 0x61 ∷ 0x72 ∷ 0x64 ∷ []
pseudo_name lava_reverse =
    0x6c ∷ 0x61 ∷ 0x76 ∷ 0x61 ∷ 0x5f ∷ 0x72 ∷ 0x65 ∷ 0x76 ∷ 0x65 ∷ 0x72 ∷ 0x73 ∷ 0x65 ∷ []
pseudo_name rainbow_forward =
    0x72 ∷ 0x61 ∷ 0x69 ∷ 0x6e ∷ 0x62 ∷ 0x6f ∷ 0x77 ∷ 0x5f ∷ 0x66 ∷ 0x6f ∷ 0x72 ∷ 0x77 ∷ 0x61 ∷ 0x72
    ∷ 0x64 ∷ []
pseudo_name rainbow_reverse =
    0x72 ∷ 0x61 ∷ 0x69 ∷ 0x6e ∷ 0x62 ∷ 0x6f ∷ 0x77 ∷ 0x5f ∷ 0x72 ∷ 0x65 ∷ 0x76 ∷ 0x65 ∷ 0x72 ∷ 0x73
    ∷ 0x65 ∷ []
pseudo_name rainbowhc_forward =
    0x72 ∷ 0x61 ∷ 0x69 ∷ 0x6e ∷ 0x62 ∷ 0x6f ∷ 0x77 ∷ 0x68 ∷ 0x63 ∷ 0x5f ∷ 0x66 ∷ 0x6f ∷ 0x72 ∷ 0x77
    ∷ 0x61 ∷ 0x72 ∷ 0x64 ∷ []
pseudo_name rainbowhc_reverse =
    0x72 ∷ 0x61 ∷ 0x69 ∷ 0x6e ∷ 0x62 ∷ 0x6f ∷ 0x77 ∷ 0x68 ∷ 0x63 ∷ 0x5f ∷ 0x72 ∷ 0x65 ∷ 0x76 ∷ 0x65
    ∷ 0x72 ∷ 0x73 ∷ 0x65 ∷ []
pseudo_name white_hot = 0x77 ∷ 0x68 ∷ 0x69 ∷ 0x74 ∷ 0x65 ∷ 0x5f ∷ 0x68 ∷ 0x6f ∷ 0x74 ∷ []
pseudo_name black_hot = 0x62 ∷ 0x6c ∷ 0x61 ∷ 0x63 ∷ 0x6b ∷ 0x5f ∷ 0x68 ∷ 0x6f ∷ 0x74 ∷ []

pub same_text_sound : (s t : List ℕ) → same_text s t ≡ true → s ≡ t
unfolding same_text
same_text_sound [] [] h = refl
same_text_sound [] (t ∷ ts) h = ground (arith, h)
same_text_sound (s ∷ ss) [] h = ground (arith, h)
same_text_sound (s ∷ ss) (t ∷ ts) h =
    let (e, e') = conjuncts (s == t) (same_text ss ts) h in
    ground (arith, e, same_text_sound ss ts e')

pub same_text_self : (s : List ℕ) → same_text s s ≡ true
unfolding same_text
same_text_self [] = refl
same_text_self (s ∷ ss) = ground (arith, same_text_self ss)

module _ {V : Type 0} where
  -- A statement for each row of a table.
  abbrev Rows : (List ℕ → V → Type 0) → List (List ℕ × V) → Type 0
  Rows P [] = true ≡ true
  Rows P ((k, v) ∷ rest) = P k v × Rows P rest

  find-Rows :
      (P : List ℕ → V → Type 0) (table : List (List ℕ × V)) (s : List ℕ) (v : V)
      → Rows P table
      → find same_text s table ≡ some v
      → P s v
  unfolding find
  find-Rows P [] s v rows h = ground (arith, h)
  find-Rows P ((k, w) ∷ rest) s v (row, rows) h = elim (Bool-cases (same_text s k)) [
    | inl e ↦
        let v_eq : w ≡ v = ground (arith, e, h) in
        subst (λ x. P s x) v_eq (subst (λ x. P x w) (sym (same_text_sound s k e)) row)
    | inr e ↦ find-Rows P rest s v rows (ground (arith, e, h))
  ]

  find-none :
      (table : List (List ℕ × V)) (s : List ℕ)
      → find same_text s table ≡ none
      → Rows (λ k v. s ≢ k) table
  unfolding find
  find-none [] s h = refl
  find-none ((k, w) ∷ rest) s h = elim (Bool-cases (same_text s k)) [
    | inl e ↦ ground (arith, e, h)
    | inr e ↦ (
      λ eq. ground (arith, e, subst (λ x. same_text s x ≡ true) eq (same_text_self s)),
      find-none rest s (ground (arith, e, h)),
    )
  ]

module _ {F : Type 0} where
  -- `Set_Pseudo` of the name of a colour mode sets its number and returns SUCCESS; of any other text it
  -- returns OBJ_NOT_FOUND and changes nothing.
  pub set_pseudo_lem :
      (s : List ℕ) (usr : UserConfig F)
      → ((p : Pseudo) × (s ≡ pseudo_name p)
          × (set_pseudo (text s) usr ≡ (success, record usr { pseudo = pos (pseudo_number p) })))
        ⊎ (((p : Pseudo) → s ≢ pseudo_name p) × (set_pseudo (text s) usr ≡ (obj_not_found, usr)))
  unfolding set_pseudo set_pseudo_mode find
  set_pseudo_lem s usr = elim (Option-cases (find same_text s string_to_mode)) [
    | inl e ↦ inr (not_named (find-none string_to_mode s e), ground (arith, e))
    | inr (m, e) ↦
        let (p, named, result) = find-Rows Sets string_to_mode s m rows e in
        inl (
          p,
          named,
          ap (λ o. elim o [ some mode ↦ set_pseudo_mode mode usr | none ↦ (obj_not_found, usr) ]) e
              ∙ result,
        )
  ]
    where
      Sets : List ℕ → PseudoMode → Type 0
      Sets k m =
          (p : Pseudo) × (k ≡ pseudo_name p)
          × (set_pseudo_mode m usr ≡ (success, record usr { pseudo = pos (pseudo_number p) }))

      rows : Rows Sets string_to_mode
      rows = (
        (ironbow_forward, refl, refl),
        (
          (ironbow_reverse, refl, refl),
          (
            (lava_forward, refl, refl),
            (
              (lava_reverse, refl, refl),
              (
                (rainbow_forward, refl, refl),
                (
                  (rainbow_reverse, refl, refl),
                  (
                    (rainbowhc_forward, refl, refl),
                    (
                      (rainbowhc_reverse, refl, refl),
                      ((black_hot, refl, refl), ((white_hot, refl, refl), refl)),
                    ),
                  ),
                ),
              ),
            ),
          ),
        ),
      )

      not_named : Rows (λ k v. s ≢ k) string_to_mode → (p : Pseudo) → s ≢ pseudo_name p
      not_named r ironbow_forward = r.0
      not_named r ironbow_reverse = r.1.0
      not_named r lava_forward = r.1.1.0
      not_named r lava_reverse = r.1.1.1.0
      not_named r rainbow_forward = r.1.1.1.1.0
      not_named r rainbow_reverse = r.1.1.1.1.1.0
      not_named r rainbowhc_forward = r.1.1.1.1.1.1.0
      not_named r rainbowhc_reverse = r.1.1.1.1.1.1.1.0
      not_named r white_hot = r.1.1.1.1.1.1.1.1.1.0
      not_named r black_hot = r.1.1.1.1.1.1.1.1.0

  pub set_pseudo-pseudo_name :
      (p : Pseudo) (usr : UserConfig F)
      → set_pseudo (text (pseudo_name p)) usr
        ≡ (success, record usr { pseudo = pos (pseudo_number p) })
  unfolding set_pseudo set_pseudo_mode find same_text
  set_pseudo-pseudo_name ironbow_forward usr = refl
  set_pseudo-pseudo_name ironbow_reverse usr = refl
  set_pseudo-pseudo_name lava_forward usr = refl
  set_pseudo-pseudo_name lava_reverse usr = refl
  set_pseudo-pseudo_name rainbow_forward usr = refl
  set_pseudo-pseudo_name rainbow_reverse usr = refl
  set_pseudo-pseudo_name rainbowhc_forward usr = refl
  set_pseudo-pseudo_name rainbowhc_reverse usr = refl
  set_pseudo-pseudo_name white_hot usr = refl
  set_pseudo-pseudo_name black_hot usr = refl
