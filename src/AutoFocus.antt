-- ===== src/AutoFocus.antt =====
-- The autofocus: `class Auto_Focusing` and `ir_auto_focusing_by_image_continuous` of
-- src/media/algo/af/ir_auto_focusing.cpp. What the motor answers and how sharp the picture is at each
-- question are arguments; the sleeps and the prints are left out. The three arrays of 600 numbers
-- and `list_index` are the list of what they hold, newest first.
mod Run
mod Ir
mod Laws
mod Bounds
mod Best
mod Tests
use pre.Prelude.{
  ltb, leb, if◌then◌else◌, ◌>>=◌, length, ℕ, zero, suc, ◌+◌, ◌-◌, ◌/◌, Bool, true, false, not, ◌&&◌,
  ◌||◌, Option, none, some, List, [], ◌∷◌,
}
use pre.Prelude.Int.{ℤ, pos, negsuc, ◌+ℤ◌, ◌-ℤ◌}

-- The floating-point operations of this code: no law of them is assumed here.
pub record Sharpness : Type 1 where
  pub F : Type 0
  pub of_ℤ : ℤ → F
  pub sub : F → F → F
  pub lt : F → F → Bool
  pub le : F → F → Bool
  pub eq : F → F → Bool

-- The positions and the values of `get_eig` after each question to the motor, and the `T_cut` of the
-- fine tuning.
pub record Scene (ops : Sharpness) : Type 0 where
  pub position : ℕ → ℤ
  pub get_eig : ℕ → ops.F
  pub t_cut : ops.F

-- What `set_eig` records: an index of the three arrays.
pub record Entry (ops : Sharpness) : Type 0 where
  pub value : ops.F
  pub motor_pos : ℤ
  pub return_pos : ℕ

-- The members that are read, the questions asked so far and the steps sent to the motor.
pub record AutoFocusing (ops : Sharpness) : Type 0 where
  pub eig : ops.F
  pub current_motor_pos : ℤ
  pub entries : List (Entry ops)
  pub reads : ℕ
  pub moves : List ℤ

-- `IR_Motor_Step_Total`
abbrev pub step_total : ℕ
step_total = 2000

-- `pos <= m`, of an int and a bound of at least 0
abbrev pub at_most : ℤ → ℕ → Bool
at_most (pos n) m = leb n m
at_most (negsuc n) m = true

-- `pos == 0`
abbrev pub is_zero : ℤ → Bool
is_zero (pos zero) = true
is_zero (pos (suc n)) = false
is_zero (negsuc n) = false

-- `findMaxValue` of the values in order, for which the list is the array from its end.
unfoldable pub find_max_value : (ops : Sharpness) → List (Entry ops) → ops.F
find_max_value ops [] = ops.of_ℤ (negsuc 0)
find_max_value ops (e ∷ []) = e.value
find_max_value ops (e ∷ d ∷ es) =
    let largest = find_max_value ops (d ∷ es) in if ops.lt largest e.value then e.value else largest

-- The loop of `get_max_eig_pos`, with the value `max` starts from: `max` and the position at
-- `max_index`; `none` without an entry, since the first value is at index -1 then.
unfoldable pub scan_max : (ops : Sharpness) → ops.F → List (Entry ops) → Option (ops.F × ℕ)
scan_max ops last [] = none
scan_max ops last (e ∷ []) = some (last, e.return_pos)
scan_max ops last (e ∷ d ∷ es) = do
  (largest, x0) ← scan_max ops last (d ∷ es)
  some (
      if ltb d.return_pos e.return_pos && ops.lt largest e.value
      then (e.value, e.return_pos)
      else (largest, x0))

-- `get_max_eig_pos`
unfoldable pub get_max_eig_pos : (ops : Sharpness) → List (Entry ops) → Option ℕ
unfolding scan_max
get_max_eig_pos ops [] = none
get_max_eig_pos ops (e ∷ es) = do (largest, x0) ← scan_max ops e.value (e ∷ es); some x0

-- `eig_values_list[list_index - 2]`: `none` where the index is below the array.
abbrev pub last_but_one : (ops : Sharpness) → List (Entry ops) → Option ops.F
last_but_one ops [] = none
last_but_one ops (e ∷ []) = none
last_but_one ops (e ∷ d ∷ es) = some d.value

-- `get_eig_last_minus_current`
unfoldable pub get_eig_last_minus_current : (ops : Sharpness) → AutoFocusing ops → Option ops.F
get_eig_last_minus_current ops s = do value ← last_but_one ops s.entries; some (ops.sub value s.eig)

-- `get_motor_current_pos`
unfoldable pub get_motor_current_pos :
    (ops : Sharpness) → Scene ops → AutoFocusing ops → ℤ × AutoFocusing ops
get_motor_current_pos ops scene s = (scene.position s.reads, record s { reads = suc s.reads })

-- `ir_motor_move`
unfoldable pub ir_motor_move : (ops : Sharpness) → ℤ → AutoFocusing ops → AutoFocusing ops
ir_motor_move ops steps s = record s { moves = steps ∷ s.moves }

-- The arrays' part of `set_eig`: `none` for a write at index 600.
unfoldable pub record_eig :
    (ops : Sharpness) → Entry ops → List (Entry ops) → Option (List (Entry ops))
record_eig ops e [] = some (e ∷ [])
record_eig ops e (d ∷ es) =
    if ops.eq e.value d.value
    then some (d ∷ es)
    else if ltb (length (d ∷ es)) 600
    then some (e ∷ d ∷ es)
    else none

-- `set_eig`, which follows a question to the motor.
unfoldable pub set_eig :
    (ops : Sharpness) → Scene ops → ℤ → AutoFocusing ops → Option (AutoFocusing ops)
unfolding record_eig
set_eig ops scene (negsuc n) s = some s
set_eig ops scene (pos n) s = do
  let value = scene.get_eig s.reads
  let e : Entry ops = record { value = value; motor_pos = s.current_motor_pos; return_pos = n }
  es ← record_eig ops e s.entries
  some (record s { eig = value; entries = es })

-- A question to the motor, and `set_eig` at its answer.
unfoldable pub sample :
    (ops : Sharpness) → Scene ops → AutoFocusing ops → Option (ℤ × AutoFocusing ops)
unfolding get_motor_current_pos set_eig
sample ops scene s = do
  let (p, s') = get_motor_current_pos ops scene s
  s'' ← set_eig ops scene p s'
  some (p, s'')
