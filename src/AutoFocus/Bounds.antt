-- ===== src/AutoFocus/Bounds.antt =====
-- The whole run of the autofocus stays inside its arrays.
use pre.AutoFocus.{
  Sharpness, Scene, Entry, AutoFocusing, sample, get_motor_current_pos, ir_motor_move,
  find_max_value, scan_max, get_max_eig_pos, last_but_one, get_eig_last_minus_current, at_most,
  step_total,
}
use pre.AutoFocus.Run.{
  move_to_max, move_to_best, tune_step, tune_last, finetune, focus_start, focus_from, focus_tune,
  turn_back, negate,
}
use pre.Prelude.{
  ℕ, zero, suc, ◌+◌, ◌-◌, ◌≤◌, ◌<◌, ◌≡◌, not, ◌||◌, Option, some, List, [], ◌∷◌, length, sym, subst,
  if◌then◌else◌, ◌>>=◌, arith, ltb,
}
use pre.Prelude.Int.{ℤ, pos, negsuc}
use pre.AutoFocus.Laws.{
  Returns, returned, bind-Returns, if_Returns, IsDistinct, Within, widen, sample_lem,
  move_to_zero_lem, move_to_max_lem, move_to_best-entries,
}

scan_max-Returns :
    (ops : Sharpness) (last : ops.F) (es : List (Entry ops))
    → 1 ≤ length es
    → Returns (λ r. Unit) (scan_max ops last es)
unfolding scan_max
scan_max-Returns ops last [] h = absurd (omega (arith, h))
scan_max-Returns ops last (e ∷ []) h = tt
scan_max-Returns ops last (e ∷ d ∷ es) h =
    bind-Returns (λ r. Unit) (λ r. Unit) (scan_max ops last (d ∷ es)) _
      (scan_max-Returns ops last (d ∷ es) (omega arith)) (λ r k. tt)

get_max_eig_pos-Returns :
    (ops : Sharpness) (es : List (Entry ops))
    → 1 ≤ length es
    → Returns (λ r. Unit) (get_max_eig_pos ops es)
unfolding get_max_eig_pos
get_max_eig_pos-Returns ops [] h = absurd (omega (arith, h))
get_max_eig_pos-Returns ops (e ∷ es) h =
    bind-Returns (λ r. Unit) (λ r. Unit) (scan_max ops e.value (e ∷ es)) _
      (scan_max-Returns ops e.value (e ∷ es) h) (λ r k. tt)

get_eig_last_minus_current-Returns :
    (ops : Sharpness) (s : AutoFocusing ops)
    → 2 ≤ length s.entries
    → Returns (λ r. Unit) (get_eig_last_minus_current ops s)
unfolding get_eig_last_minus_current
get_eig_last_minus_current-Returns ops s h =
    bind-Returns (λ r. Unit) (λ r. Unit) (last_but_one ops s.entries) _ (two s.entries h)
      (λ r k. tt)
  where
    two : (es : List (Entry ops)) → 2 ≤ length es → Returns (λ r. Unit) (last_but_one ops es)
    two [] h = absurd (omega (arith, h))
    two (e ∷ []) h = absurd (omega (arith, h))
    two (e ∷ d ∷ es) h = tt

tune_step_lem :
    (ops : Sharpness) (scene : Scene ops) (pulse : ℤ) (lo hi : ℕ) (s : AutoFocusing ops)
    → hi < 600
    → Within ops lo hi s.entries
    → Returns (λ r. Within ops lo (suc hi) (r.1.entries)) (tune_step ops scene pulse s)
unfolding tune_step ir_motor_move
tune_step_lem ops scene pulse lo hi s h w = sample_lem ops scene lo hi _ h w

tune_last_lem :
    (ops : Sharpness) (scene : Scene ops) (pulse : ℤ) (lo hi top : ℕ) (s : AutoFocusing ops)
    → hi < top
    → top ≤ 600
    → Within ops lo hi s.entries
    → Returns (λ r. Within ops lo top r.entries) (tune_last ops scene pulse s)
unfolding tune_last
tune_last_lem ops scene pulse lo hi top s h t w =
    bind-Returns (λ r. Within ops lo (suc hi) (r.1.entries)) (λ r. Within ops lo top r.entries)
      (tune_step ops scene pulse s) _
      (tune_step_lem ops scene pulse lo hi s (omega (arith, h, t)) w)
      (λ (p, s') k. widen ops lo (suc hi) lo top s'.entries (omega (arith, h)) (omega arith) k)

finetune_lem :
    (ops : Sharpness) (scene : Scene ops) (left : ℕ) (pulse : ℤ) (t lo hi top : ℕ)
    (s : AutoFocusing ops)
    → 2 ≤ lo
    → hi + left + 1 ≤ top
    → top ≤ 600
    → Within ops lo hi s.entries
    → Returns (λ r. Within ops lo top r.entries) (finetune ops scene left pulse t s)
unfolding finetune
finetune_lem ops scene zero pulse t lo hi top s two h u w =
    widen ops lo hi lo top s.entries (omega (arith, h)) (omega arith) w
finetune_lem ops scene (suc left) pulse t lo hi top s two h u w =
    bind-Returns (λ r. Within ops lo (suc hi) (r.1.entries)) (λ r. Within ops lo top r.entries)
      (tune_step ops scene pulse s) _
      (tune_step_lem ops scene pulse lo hi s (omega (arith, h, u)) w)
      (λ (p, s') k.
        let Done : AutoFocusing ops → Type 0 = λ r. Within ops lo top r.entries in
        let pulse' = if at_most p 0 || not (at_most p step_total) then negate pulse else pulse in
        let last = tune_last ops scene (turn_back pulse') s' in
        let rest_turned = finetune ops scene left (turn_back pulse') (suc t) s' in
        let rest = finetune ops scene left pulse' t s' in
        let turned = if ltb 2 (suc t) then last else rest_turned in
        let next : ops.F → Option (AutoFocusing ops) =
          λ diff. if ops.lt scene.t_cut diff then turned else rest in
        if_Returns Done (ops.le (find_max_value ops s'.entries) s'.eig) (some s')
          (get_eig_last_minus_current ops s' >>= next)
          (widen ops lo (suc hi) lo top s'.entries (omega (arith, h)) (omega arith) k)
          (bind-Returns (λ r. Unit) Done (get_eig_last_minus_current ops s') next
            (get_eig_last_minus_current-Returns ops s' (omega (arith, two, k.1)))
            (λ diff q.
              if_Returns Done (ops.lt scene.t_cut diff) turned rest
                (if_Returns Done (ltb 2 (suc t)) last rest_turned
                  (tune_last_lem ops scene (turn_back pulse') lo (suc hi) top s' (omega (arith, h))
                    u k)
                  (finetune_lem ops scene left (turn_back pulse') (suc t) lo (suc hi) top s' two
                    (omega (arith, h)) u k))
                (finetune_lem ops scene left pulse' t lo (suc hi) top s' two (omega (arith, h)) u
                  k))))

focus_start-Returns :
    (ops : Sharpness) (scene : Scene ops) (unset : ops.F)
    → Returns (λ r. Within ops 0 301 r.entries) (focus_start ops scene unset)
unfolding focus_start
focus_start-Returns ops scene unset =
    bind-Returns (λ r. Within ops 0 1 (r.1.entries)) (λ r. Within ops 0 301 r.entries)
      (sample ops scene _) _
      (sample_lem ops scene 0 0 _ (omega arith) (tt, omega arith, omega arith))
      (λ (p, s) k. move_to_zero_lem ops scene 3 0 1 301 s (omega arith) (omega arith) k)

focus_tune-Returns :
    (ops : Sharpness) (scene : Scene ops) (s : AutoFocusing ops)
    → Within ops 2 587 s.entries
    → Returns (λ r. Within ops 2 600 r.entries) (focus_tune ops scene s)
unfolding focus_tune
focus_tune-Returns ops scene s w =
    let Done : AutoFocusing ops → Type 0 = λ r. Within ops 2 600 r.entries in
    bind-Returns (λ r. Within ops 2 588 (r.1.entries)) Done (sample ops scene s) _
      (sample_lem ops scene 2 587 s (omega arith) w)
      (λ (p, s1) k1.
        bind-Returns (λ r. Unit) Done (get_eig_last_minus_current ops s1) _
          (get_eig_last_minus_current-Returns ops s1 k1.1)
          (λ diff q.
            let pulse = if ops.le (ops.of_ℤ (pos 0)) diff then pos 20 else negsuc 19 in
            bind-Returns (λ r. Within ops 2 599 r.entries) Done (finetune ops scene 10 pulse 0 s1) _
              (finetune_lem ops scene 10 pulse 0 2 588 599 s1 (omega arith) (omega arith)
                (omega arith) k1)
              (λ s2 k2.
                bind-Returns (λ r. Within ops 2 600 (r.1.entries)) Done (sample ops scene s2) _
                  (sample_lem ops scene 2 599 s2 (omega arith) k2) (λ r k. k))))

focus_from-Returns :
    (ops : Sharpness) (scene : Scene ops) (s : AutoFocusing ops)
    → Within ops 2 286 s.entries
    → Returns (λ r. Within ops 2 600 r.entries) (focus_from ops scene s)
unfolding focus_from get_motor_current_pos
focus_from-Returns ops scene s w =
    let Done : AutoFocusing ops → Type 0 = λ r. Within ops 2 600 r.entries in
    bind-Returns (λ r. Within ops 2 287 (r.1.entries)) Done (sample ops scene s) _
      (sample_lem ops scene 2 286 s (omega arith) w)
      (λ (p, s1) k1.
        bind-Returns (λ r. Within ops 2 587 r.entries) Done (move_to_max ops scene 3 s1) _
          (move_to_max_lem ops scene 3 2 287 587 s1 (omega arith) (omega arith) k1)
          (λ s2 k2.
            let s3 = record s2 { reads = suc s2.reads } in
            bind-Returns (λ r. Unit) Done (get_max_eig_pos ops s2.entries) _
              (get_max_eig_pos-Returns ops s2.entries (omega (arith, k2.1)))
              (λ x0 q. focus_tune-Returns ops scene (move_to_best ops scene (x0 - 110) 3 s3) (
                subst (Within ops 2 587) (sym (move_to_best-entries ops scene (x0 - 110) 3 s3))
                  k2))))

-- The run up to the motor's position 0 always ends, with at most 301 samples in the arrays and no
-- value recorded twice in a row.
pub focus_start_lem :
    (ops : Sharpness) (scene : Scene ops) (unset : ops.F)
    → (s : AutoFocusing ops) × (focus_start ops scene unset ≡ some s)
      × IsDistinct ops s.entries
      × (length s.entries ≤ 301)
focus_start_lem ops scene unset =
    let (s, e, (d, l, u)) =
      returned (λ r. Within ops 0 301 r.entries) (focus_start ops scene unset)
        (focus_start-Returns ops scene unset) in
    (s, e, d, u)

-- Where the run up to the motor's position 0 records from 2 to 286 samples, the rest of the autofocus
-- ends too: it never reads or writes outside the three arrays of 600, whatever the motor answers and
-- the pictures show, and no value is recorded twice in a row.
pub focus_from_lem :
    (ops : Sharpness) (scene : Scene ops) (unset : ops.F) (s : AutoFocusing ops)
    → focus_start ops scene unset ≡ some s
    → 2 ≤ length s.entries
    → length s.entries ≤ 286
    → (s' : AutoFocusing ops) × (focus_from ops scene s ≡ some s')
      × IsDistinct ops s'.entries
      × (length s'.entries ≤ 600)
focus_from_lem ops scene unset s e lo hi =
    let start =
      subst (Returns (λ r. Within ops 0 301 r.entries)) e (focus_start-Returns ops scene unset) in
    let (s', e', (d, l, u)) =
      returned (λ r. Within ops 2 600 r.entries) (focus_from ops scene s)
        (focus_from-Returns ops scene s (start.0, lo, hi)) in
    (s', e', d, u)
