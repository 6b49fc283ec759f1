-- ===== src/AutoFocus/Run.antt =====
-- The run of `ir_auto_focusing_by_image_continuous`, src/media/algo/af/ir_auto_focusing.cpp, and
-- `finetune`.
use pre.AutoFocus.{
  step_total, at_most, is_zero, find_max_value, get_max_eig_pos, get_eig_last_minus_current,
  get_motor_current_pos, ir_motor_move, sample, Sharpness, Scene, AutoFocusing,
}
use pre.Prelude.{
  ltb, if◌then◌else◌, ◌>>=◌, ℕ, zero, suc, ◌+◌, ◌-◌, ◌/◌, Bool, true, false, not, ◌||◌, Option,
  some, [],
}
use pre.Prelude.Int.{ℤ, pos, negsuc, ◌+ℤ◌, ◌-ℤ◌}

-- A loop that takes samples until one satisfies the test, with the rounds left; whether it was met.
unfoldable pub wait_for :
    (ops : Sharpness)
    → Scene ops
    → (ℤ → Bool)
    → ℕ
    → AutoFocusing ops
    → Option (Bool × AutoFocusing ops)
unfolding sample
wait_for ops scene test zero s = some (false, s)
wait_for ops scene test (suc left) s = do
  (p, s') ← sample ops scene s
  let rest = wait_for ops scene test left s'
  if test p then some (true, s') else rest

-- The loop that brings the motor to position 0, with the tries left.
unfoldable pub move_to_zero :
    (ops : Sharpness) → Scene ops → ℕ → AutoFocusing ops → Option (AutoFocusing ops)
unfolding wait_for get_motor_current_pos
move_to_zero ops scene zero s = some s
move_to_zero ops scene (suc left) s = do
  (met, s') ← wait_for ops scene is_zero 100 (ir_motor_move ops (negsuc 2999) s)
  let (p, s'') = get_motor_current_pos ops scene s'
  let rest = move_to_zero ops scene left s''
  if is_zero p then some s'' else rest

-- The question and the move that a try of the two later loops starts with.
unfoldable pub move_forward : (ops : Sharpness) → Scene ops → AutoFocusing ops → AutoFocusing ops
unfolding get_motor_current_pos ir_motor_move
move_forward ops scene s =
    let (p, s') = get_motor_current_pos ops scene s in ir_motor_move ops (pos step_total -ℤ p) s'

-- The loop that brings the motor to its largest position, with the tries left.
unfoldable pub move_to_max :
    (ops : Sharpness) → Scene ops → ℕ → AutoFocusing ops → Option (AutoFocusing ops)
unfolding wait_for move_forward
move_to_max ops scene zero s = some s
move_to_max ops scene (suc left) s = do
  (met, s') ← wait_for ops scene (λ p. not (at_most p 1200)) 100 (move_forward ops scene s)
  let rest = move_to_max ops scene left s'
  if met then some s' else rest

-- The inner loop of the return to the best position, with the rounds left.
unfoldable pub approach :
    (ops : Sharpness) → Scene ops → ℕ → ℕ → AutoFocusing ops → Bool × AutoFocusing ops
unfolding get_motor_current_pos ir_motor_move find_max_value
approach ops scene target zero s = (false, s)
approach ops scene target (suc left) s =
    let (p, s1) = get_motor_current_pos ops scene s in
    let s2 = ir_motor_move ops (pos target -ℤ p) s1 in
    let rest = approach ops scene target left s2 in
    if ops.eq (find_max_value ops s2.entries) s2.eig || at_most p target then (true, s2) else rest

-- The return to the best position, with the tries left.
unfoldable pub move_to_best :
    (ops : Sharpness) → Scene ops → ℕ → ℕ → AutoFocusing ops → AutoFocusing ops
unfolding approach move_forward
move_to_best ops scene target zero s = s
move_to_best ops scene target (suc left) s =
    let (met, s') = approach ops scene target 100 (move_forward ops scene s) in
    let rest = move_to_best ops scene target left s' in if met then s' else rest

-- `motor_pulse_finetune *= -0.5`, truncated.
abbrev pub turn_back : ℤ → ℤ
turn_back (pos n) = pos 0 -ℤ pos (n / 2)
turn_back (negsuc n) = pos ((n + 1) / 2)

-- `motor_pulse_finetune *= -1`
abbrev pub negate : ℤ → ℤ
negate p = pos 0 -ℤ p

-- A move of the fine tuning and the sample after it.
unfoldable pub tune_step :
    (ops : Sharpness) → Scene ops → ℤ → AutoFocusing ops → Option (ℤ × AutoFocusing ops)
unfolding sample ir_motor_move
tune_step ops scene pulse s =
    let s1 = ir_motor_move ops pulse s in
    sample ops scene (record s1 { current_motor_pos = s1.current_motor_pos +ℤ pulse })

-- The move after the third turn.
unfoldable pub tune_last :
    (ops : Sharpness) → Scene ops → ℤ → AutoFocusing ops → Option (AutoFocusing ops)
unfolding tune_step
tune_last ops scene pulse s = do (p, s') ← tune_step ops scene pulse s; some s'

-- The loop of `finetune`, with the rounds left, the pulse and `T`.
unfoldable pub finetune :
    (ops : Sharpness) → Scene ops → ℕ → ℤ → ℕ → AutoFocusing ops → Option (AutoFocusing ops)
unfolding tune_step tune_last find_max_value get_eig_last_minus_current
finetune ops scene zero pulse t s = some s
finetune ops scene (suc left) pulse t s = do
  (p, s') ← tune_step ops scene pulse s
  let pulse' = if at_most p 0 || not (at_most p step_total) then negate pulse else pulse
  let last = tune_last ops scene (turn_back pulse') s'
  let rest_turned = finetune ops scene left (turn_back pulse') (suc t) s'
  let rest = finetune ops scene left pulse' t s'
  let turned = if ltb 2 (suc t) then last else rest_turned
  let next =
      get_eig_last_minus_current ops s' >>= λ diff. if ops.lt scene.t_cut diff then turned else rest
  if ops.le (find_max_value ops s'.entries) s'.eig then some s' else next

-- `ir_auto_focusing_by_image_continuous` up to the motor's position 0, from a new `Auto_Focusing`
-- whose `eig` is not yet set.
unfoldable pub focus_start : (ops : Sharpness) → Scene ops → ops.F → Option (AutoFocusing ops)
unfolding sample move_to_zero
focus_start ops scene unset = do
  let new : AutoFocusing ops = record {
    eig = unset;
    current_motor_pos = pos 0;
    entries = [];
    reads = 0;
    moves = [];
  }
  (p, s) ← sample ops scene new
  move_to_zero ops scene 3 s

-- What follows the return to the best position.
unfoldable pub focus_tune :
    (ops : Sharpness) → Scene ops → AutoFocusing ops → Option (AutoFocusing ops)
unfolding sample get_eig_last_minus_current finetune
focus_tune ops scene s = do
  (p, s1) ← sample ops scene s
  diff ← get_eig_last_minus_current ops s1
  s2 ← finetune ops scene 10 (if ops.le (ops.of_ℤ (pos 0)) diff then pos 20 else negsuc 19) 0 s1
  (p2, s3) ← sample ops scene s2
  some s3

-- What follows the motor's position 0.
unfoldable pub focus_from :
    (ops : Sharpness) → Scene ops → AutoFocusing ops → Option (AutoFocusing ops)
unfolding sample move_to_max get_motor_current_pos get_max_eig_pos move_to_best focus_tune
focus_from ops scene s = do
  (p, s1) ← sample ops scene s
  s2 ← move_to_max ops scene 3 s1
  let (p2, s3) = get_motor_current_pos ops scene s2
  x0 ← get_max_eig_pos ops s3.entries
  focus_tune ops scene (move_to_best ops scene (x0 - 110) 3 s3)
