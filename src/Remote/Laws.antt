-- ===== src/Remote/Laws.antt =====
-- What the remote control does with the user configuration.
use pre.Remote.Message.{
  Json, JWrap, code_pseudo, code_gas_enhancement, code_autofocus_ir, new_jwrap, parse,
}
use pre.Remote.Controller.{
  Value, text, focus, ErrorCode, success, obj_not_found, invalid_parameter, invalid_code,
  error_number, find, same_text, set_pseudo_mode, set_pseudo, set_gas_enhancement, set_ir_focus,
}
use pre.Remote.Listen.{Reply, dispatch, handle}
use pre.Remote.Names.{pseudo_name, set_pseudo_lem, set_pseudo-pseudo_name}
use pre.Config.User.{
  Pseudo, pseudo_number, pseudo_nums, gas_enhancement_min, gas_enhancement_max, UserConfig,
}
use pre.Prelude.{
  ltb, ◌==◌, Bool-cases, if_either, bind_some, ℕ, ◌≤◌, ◌<◌, ◌≡◌, refl, sym, subst, ◌≢◌, ◌⊎◌, inl,
  inr, ◌&&◌, ◌||◌, Option, none, some, List, [], arith,
}
use pre.Prelude.Int.{ℤ, pos, negsuc}

-- A configuration that the rest of the program may use: a colour mode and a gas enhancement of the
-- enumerations.
pub record IsValid {F : Type 0} (usr : UserConfig F) : Type 0 where
  pub pseudo_fits : (n : ℕ) × (usr.pseudo ≡ pos n) × (n < pseudo_nums)
  pub gas_min : gas_enhancement_min < usr.gas_enhancement
  pub gas_max : usr.gas_enhancement < gas_enhancement_max

pseudo_number-lt : (p : Pseudo) → pseudo_number p < pseudo_nums
pseudo_number-lt p = ground arith

module _ {F : Type 0} where
  -- What every command leaves of the configuration but the colour mode and the gas enhancement.
  abbrev Only : (ℤ → ℕ → Type 0) → UserConfig F → UserConfig F → Type 0
  Only P usr usr' =
      (p : ℤ) × (g : ℕ) × (usr' ≡ record usr { pseudo = p; gas_enhancement = g }) × P p g

  set_pseudo-IsValid : (v : Value) (usr : UserConfig F) → IsValid usr → IsValid (set_pseudo v usr).1
  unfolding set_pseudo
  set_pseudo-IsValid (text s) usr valid = elim (set_pseudo_lem s usr) [
    | inl (p, named, e) ↦
        subst (λ (r : ErrorCode × UserConfig F). IsValid r.1) (sym e)
          (record {
            pseudo_fits = (pseudo_number p, refl, pseudo_number-lt p);
            gas_min = valid.gas_min;
            gas_max = valid.gas_max;
          })
    | inr (other, e) ↦ subst (λ (r : ErrorCode × UserConfig F). IsValid r.1) (sym e) valid
  ]
  set_pseudo-IsValid (focus d) usr valid = valid

  -- `Set_Gas_Enhancement` of a text accepts exactly the numbers 1 to 16, which it sets; of any other it
  -- returns OBJ_NOT_FOUND and changes nothing.
  pub set_gas_enhancement_lem :
      (atoi : List ℕ → ℤ) (s : List ℕ) (usr : UserConfig F)
      → ((n : ℕ) × (atoi s ≡ pos n)
          × (1 ≤ n)
          × (n ≤ 16)
          × (set_gas_enhancement atoi (text s) usr ≡ (success, record usr { gas_enhancement = n })))
        ⊎ (((n : ℕ) → 1 ≤ n → n ≤ 16 → atoi s ≢ pos n)
            × (set_gas_enhancement atoi (text s) usr ≡ (obj_not_found, usr)))
  unfolding set_gas_enhancement
  set_gas_enhancement_lem atoi s usr = go (atoi s) refl
    where
      go :
          (z : ℤ)
          → atoi s ≡ z
          → ((n : ℕ) × (z ≡ pos n)
              × (1 ≤ n)
              × (n ≤ 16)
              × (set_gas_enhancement atoi (text s) usr
                  ≡ (success, record usr { gas_enhancement = n })))
            ⊎ (((n : ℕ) → 1 ≤ n → n ≤ 16 → z ≢ pos n)
                × (set_gas_enhancement atoi (text s) usr ≡ (obj_not_found, usr)))
      go (negsuc k) e = inr (λ n lo hi h. ground (arith, h), ground (arith, e))
      go (pos n) e = elim (Bool-cases (ltb 0 n && ltb n 17)) [
        | inl t ↦ inl (n, refl, ground (arith, t), ground (arith, t), ground (arith, e, t))
        | inr t ↦ inr (λ m lo hi h. ground (arith, h, t), ground (arith, e, t))
      ]

  set_gas_enhancement-IsValid :
      (atoi : List ℕ → ℤ) (v : Value) (usr : UserConfig F)
      → IsValid usr
      → IsValid (set_gas_enhancement atoi v usr).1
  unfolding set_gas_enhancement
  set_gas_enhancement-IsValid atoi (text s) usr valid = elim (set_gas_enhancement_lem atoi s usr) [
    | inl (n, e, lo, hi, r) ↦
        subst (λ (r : ErrorCode × UserConfig F). IsValid r.1) (sym r)
          (record { pseudo_fits = valid.pseudo_fits; gas_min = lo; gas_max = omega (arith, hi) })
    | inr (other, r) ↦ subst (λ (r : ErrorCode × UserConfig F). IsValid r.1) (sym r) valid
  ]
  set_gas_enhancement-IsValid atoi (focus d) usr valid = valid

  dispatch-IsValid :
      (atoi : List ℕ → ℤ) (jw : JWrap) (usr : UserConfig F)
      → IsValid usr
      → IsValid (dispatch atoi jw usr).1
  unfolding dispatch
  dispatch-IsValid atoi jw usr valid = go jw.code_enum
    where
      P : ErrorCode × UserConfig F → Type 0
      P r = IsValid r.1

      with_code : ℤ → JWrap
      with_code z = record jw { code_enum = z }

      go : (z : ℤ) → P (dispatch atoi (with_code z) usr)
      go (negsuc k) = valid
      go (pos code) =
          if_either P (code == code_pseudo) _ _ (set_pseudo-IsValid jw.value usr valid) (
            if_either P (code == code_gas_enhancement) _ _
              (set_gas_enhancement-IsValid atoi jw.value usr valid)
              (if_either P (code == code_autofocus_ir) (set_ir_focus jw.value, usr)
                (invalid_code, usr) valid valid))

  -- Only these two fields change.
  abbrev Keeps : UserConfig F → ErrorCode × UserConfig F → Type 0
  Keeps usr r = r.1 ≡ record usr { pseudo = r.1.pseudo; gas_enhancement = r.1.gas_enhancement }

  dispatch-Keeps :
      (atoi : List ℕ → ℤ) (jw : JWrap) (usr : UserConfig F) → Keeps usr (dispatch atoi jw usr)
  unfolding dispatch set_pseudo set_pseudo_mode set_gas_enhancement
  dispatch-Keeps atoi jw usr = ground arith

  -- Whatever a message holds, where its handling is defined, the colour mode stays one of the ten and
  -- the gas enhancement one of 1 to 16, and nothing else of the configuration changes.
  pub handle-IsValid :
      (json : Json) (atoi : List ℕ → ℤ) (garbage len : ℤ) (message : List ℕ)
      (usr usr' : UserConfig F) (reply : Option Reply)
      → IsValid usr
      → handle json atoi garbage len message usr ≡ some (usr', reply)
      → IsValid usr'
        × (usr' ≡ record usr { pseudo = usr'.pseudo; gas_enhancement = usr'.gas_enhancement })
  unfolding handle
  handle-IsValid json atoi garbage (negsuc k) message usr usr' reply valid h =
      absurd (ground (arith, h))
  handle-IsValid json atoi garbage (pos len) message usr usr' reply valid h =
      let ((ret, jw), e, e') = bind_some (parse json message (new_jwrap garbage)) _ _ h in
      let same : (dispatch atoi jw usr).1 ≡ usr' = ground (arith, e') in
      (
        subst (λ x. IsValid x) same (dispatch-IsValid atoi jw usr valid),
        subst
            (λ (x : UserConfig F).
              x ≡ record usr { pseudo = x.pseudo; gas_enhancement = x.gas_enhancement })
            same (dispatch-Keeps atoi jw usr),
      )

  -- A message that asks for a colour mode by its code and the mode's name sets that mode and is
  -- answered with 0, whatever status `Parse` gave it: a message that `Validate` rejects is carried
  -- out all the same.
  pub handle-set_pseudo :
      (json : Json) (atoi : List ℕ → ℤ) (garbage ret : ℤ) (len : ℕ) (message : List ℕ) (jw : JWrap)
      (p : Pseudo) (usr : UserConfig F)
      → parse json message (new_jwrap garbage) ≡ some (ret, jw)
      → jw.code_enum ≡ pos code_pseudo
      → jw.value ≡ text (pseudo_name p)
      → handle json atoi garbage (pos len) message usr
        ≡ some (
          record usr { pseudo = pos (pseudo_number p) },
          some (record {
            reply_code = pos code_pseudo;
            reply_name = jw.code_name;
            reply_method = jw.method;
            status = pos 0;
          }),
        )
  unfolding handle dispatch
  handle-set_pseudo json atoi garbage ret len message jw p usr e c v =
      ground (arith, e, c, v, set_pseudo-pseudo_name p usr)

  dispatch_empty :
      (atoi : List ℕ → ℤ) (garbage : ℤ) (usr : UserConfig F)
      → atoi [] ≡ pos 0
      → (status : ErrorCode) × (status ≢ success)
        × (dispatch atoi (new_jwrap garbage) usr ≡ (status, usr))
  unfolding dispatch set_pseudo set_gas_enhancement set_ir_focus find same_text
  dispatch_empty atoi (negsuc k) usr z = (invalid_code, λ e. ground (arith, e), refl)
  dispatch_empty atoi (pos code) usr z =
      elim (Bool-cases (code == code_pseudo || code == code_gas_enhancement)) [
        | inl t ↦ (obj_not_found, λ e. ground (arith, e), ground (arith, t, z))
        | inr t ↦ elim (Bool-cases (code == code_autofocus_ir)) [
          | inl t' ↦ (invalid_parameter, λ e. ground (arith, e), ground (arith, t, t'))
          | inr t' ↦ (invalid_code, λ e. ground (arith, e), ground (arith, t, t'))
        ]
      ]

  -- A text that is no JSON changes nothing of the configuration, whatever number the uninitialised
  -- code is, and is answered with an error under that code.
  pub handle_no_json :
      (json : Json) (atoi : List ℕ → ℤ) (garbage : ℤ) (len : ℕ) (message : List ℕ)
      (usr : UserConfig F)
      → json.parse_text message ≡ none
      → atoi [] ≡ pos 0
      → (status : ErrorCode) × (status ≢ success)
        × (handle json atoi garbage (pos len) message usr
            ≡ some (
              usr,
              some (record {
                reply_code = garbage;
                reply_name = [];
                reply_method = [];
                status = error_number status;
              }),
            ))
  unfolding handle parse
  handle_no_json json atoi garbage len message usr e z =
      let (status, failed, r) = dispatch_empty atoi garbage usr z in
      (status, failed, ground (arith, e, r))
