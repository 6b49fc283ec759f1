-- ===== src/AutoFocus/Ir.antt =====
-- The other autofocus: `AF_IR::Focus` of src/media/algo/af/af_ir.cpp, over the calls of
-- `class Motor`. What `Get_Step_IR_Cur` answers at each question is an argument. The two loops have fuel, of
-- which the source has no bound; the sleeps are left out.
pub mod Ends
use pre.AutoFocus.{at_most, is_zero}
use pre.Motor.Continuous.{Direction, backward}
use pre.Prelude.{
  leb, ◌==◌, if◌then◌else◌, ◌>>=◌, ℕ, zero, suc, ◌+◌, ◌&&◌, Bool, false, not, Option, none, some,
  List, [], ◌∷◌,
}
use pre.Prelude.Int.{ℤ, pos, negsuc}

-- The calls that change what the motor does: `Move_IR_Start`, whose answer is not looked at,
-- `Move_IR` and `Move_IR_Stop`.
pub data MotorCall : Type 0 where
  move_ir_start : Direction → MotorCall
  move_ir : ℤ → MotorCall
  move_ir_stop : MotorCall

-- `m_step_length`
abbrev pub step_length : ℤ
step_length = pos 20

-- `==` of two ints
abbrev pub equal : ℤ → ℤ → Bool
equal (pos a) (pos b) = a == b
equal (pos a) (negsuc b) = false
equal (negsuc a) (pos b) = false
equal (negsuc a) (negsuc b) = a == b

-- Step 1, from question `n`: the number of questions asked when the loop ends. A round asks in the
-- test and once more for its print.
unfoldable pub to_zero : (ℕ → ℤ) → ℕ → ℕ → Option ℕ
to_zero answer zero n = none
to_zero answer (suc fuel) n =
    let rest = to_zero answer fuel (n + 2) in if is_zero (answer n) then some (n + 1) else rest

-- Step 2, with `old_pos` and the calls made, the last one first.
unfoldable pub to_end : (ℕ → ℤ) → ℕ → ℤ → ℕ → List MotorCall → Option (ℕ × List MotorCall)
to_end answer zero old_pos n sent = none
to_end answer (suc fuel) old_pos n sent =
    let sent' = move_ir step_length ∷ sent in
    let rest = to_end answer fuel (answer (n + 2)) (n + 3) sent' in
    if equal old_pos (answer (n + 1)) && not (at_most old_pos 2000)
    then some (n + 2, sent')
    else rest

-- `Focus`: the number of questions asked and the calls made.
unfoldable pub focus : (ℕ → ℤ) → ℕ → Option (ℕ × List MotorCall)
unfolding to_zero to_end
focus answer fuel = do
  n ← to_zero answer fuel 0
  to_end answer fuel (pos 0) n (move_ir_start backward ∷ [])
