-- ===== src/Remote/Listen.antt =====
-- `Listen::operator()` of src/utils/listen/listen.cpp. MQTT is not part of the program: what it
-- receives is an argument, and what is published is a result.
use pre.Remote.Message.{
  Json, JWrap, code_pseudo, code_gas_enhancement, code_autofocus_ir, new_jwrap, parse,
}
use pre.Remote.Controller.{
  ErrorCode, invalid_code, error_number, set_pseudo, set_gas_enhancement, set_ir_focus,
}
use pre.Config.User.{UserConfig}
use pre.Prelude.{◌==◌, if◌then◌else◌, ◌>>=◌, ℕ, Option, none, some, List}
use pre.Prelude.Int.{ℤ, pos, negsuc}

-- What the text of `CreateReturnJson` is made of; the status is printed as a number.
pub record Reply : Type 0 where
  pub reply_code : ℤ
  pub reply_name : List ℕ
  pub reply_method : List ℕ
  pub status : ℤ

module _ {F : Type 0} where
  -- The switch on the code of a message.
  unfoldable pub dispatch : (List ℕ → ℤ) → JWrap → UserConfig F → ErrorCode × UserConfig F
  unfolding set_pseudo set_gas_enhancement set_ir_focus
  dispatch atoi jw usr = elim jw.code_enum [
    | negsuc k ↦ (invalid_code, usr)
    | pos code ↦
        if code == code_pseudo
        then set_pseudo jw.value usr
        else if code == code_gas_enhancement
        then set_gas_enhancement atoi jw.value usr
        else if code == code_autofocus_ir
        then (set_ir_focus jw.value, usr)
        else (invalid_code, usr)
  ]

  -- The round for one message of `len` bytes, with what is published; `garbage` is what `m_code_enum`
  -- holds before it is set. The status of `Parse` is not looked at. Of a negative length `std::string`
  -- throws, which is `none`.
  unfoldable pub handle :
      Json → (List ℕ → ℤ) → ℤ → ℤ → List ℕ → UserConfig F → Option (UserConfig F × Option Reply)
  unfolding dispatch parse
  handle json atoi garbage (negsuc k) message usr = none
  handle json atoi garbage (pos len) message usr = do
    (ret, jw) ← parse json message (new_jwrap garbage)
    let (retval, usr') = dispatch atoi jw usr
    some (
      usr',
      some (record {
        reply_code = jw.code_enum;
        reply_name = jw.code_name;
        reply_method = jw.method;
        status = error_number retval;
      }),
    )
