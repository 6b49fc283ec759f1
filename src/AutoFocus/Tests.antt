-- ===== src/AutoFocus/Tests.antt =====
-- The theorems on the autofocus at concrete inputs.
use pre.AutoFocus.{
  Sharpness, Scene, Entry, AutoFocusing, scan_max, get_max_eig_pos, get_motor_current_pos,
  ir_motor_move, sample, set_eig, record_eig,
}
use pre.AutoFocus.Run.{wait_for, move_to_zero, focus_start, focus_from}
use pre.AutoFocus.Laws.{IsDistinct}
use pre.AutoFocus.Ir.{MotorCall, focus}
use pre.AutoFocus.Ir.Ends.{Beyond, focus_ends, focus_stuck}
use pre.AutoFocus.Bounds.{focus_from_lem}
use pre.AutoFocus.Best.{rising, oldest_pos, Chosen, get_max_eig_pos_lem}
use pre.Prelude.{
  ltb, leb, ◌==◌, if◌then◌else◌, length, ℕ, ◌-◌, ◌≤◌, ◌≡◌, refl, true, false, none, some, List, [],
  ◌∷◌, arith, tests,
}
use pre.Prelude.Int.{ℤ, pos, negsuc, pos_part}

abbrev whole_values : Sharpness
whole_values = record {
  F = ℕ;
  of_ℤ = pos_part;
  sub = λ a b. a - b;
  lt = ltb;
  le = leb;
  eq = λ a b. a == b;
}

-- A motor that is at 5, goes to 0 when asked to and then past 1200.
abbrev moving : Scene whole_values
moving = record {
  position = λ n. if ltb n 1 then pos 5 else if ltb n 3 then pos 0 else pos 1300;
  get_eig = λ n. n;
  t_cut = 0;
}

abbrev at_zero : AutoFocusing whole_values
at_zero = record {
  eig = 2;
  current_motor_pos = pos 0;
  entries =
      record { value = 2; motor_pos = pos 0; return_pos = 0 }
      ∷ record { value = 1; motor_pos = pos 0; return_pos = 5 }
      ∷ [];
  reads = 3;
  moves = negsuc 2999 ∷ [];
}

reaches_zero : focus_start whole_values moving 0 ≡ some at_zero
unfolding focus_start sample wait_for move_to_zero get_motor_current_pos ir_motor_move set_eig
    record_eig
reaches_zero = refl

focus_from_lem_example :
    (s : AutoFocusing whole_values) × (focus_from whole_values moving at_zero ≡ some s)
    × IsDistinct whole_values s.entries
    × (length s.entries ≤ 600)
focus_from_lem_example =
    focus_from_lem whole_values moving 0 at_zero reaches_zero (omega arith) (omega arith)

abbrev entry : ℕ → ℕ → Entry whole_values
entry v p = record { value = v; motor_pos = pos 0; return_pos = p }

ltb_irreflexive : (a : ℕ) → ltb a a ≡ false
ltb_irreflexive a = grind tests

ltb_transitive : (a b c : ℕ) → ltb a b ≡ true → ltb b c ≡ true → ltb a c ≡ true
ltb_transitive a b c h k = grind tests

get_max_eig_pos_lem_example :
    let es = entry 9 20 ∷ entry 1 5 ∷ [] in
    (v : ℕ) × (x0 : ℕ) × (get_max_eig_pos whole_values (entry 2 30 ∷ es) ≡ some x0)
    × Chosen whole_values 2
        (oldest_pos whole_values (entry 2 30) es)
        (rising whole_values (entry 2 30 ∷ es))
        v
        x0
get_max_eig_pos_lem_example =
    get_max_eig_pos_lem whole_values ltb_irreflexive ltb_transitive (entry 2 30)
      (entry 9 20 ∷ entry 1 5 ∷ [])

peak_found : get_max_eig_pos whole_values (entry 2 30 ∷ entry 9 20 ∷ entry 1 5 ∷ []) ≡ some 20
unfolding get_max_eig_pos scan_max
peak_found = refl

-- Where the newest sample is the sharpest, the first position is taken for the best.
newest_missed : get_max_eig_pos whole_values (entry 9 30 ∷ entry 2 20 ∷ entry 1 5 ∷ []) ≡ some 5
unfolding get_max_eig_pos scan_max
newest_missed = refl

-- A motor at 0 that settles at 2400; and one that ends its travel at 1200.
abbrev far_motor : ℕ → ℤ
far_motor n = if ltb n 4 then pos 0 else pos 2400

far_motor_ends :
    (n : ℕ) × (calls : List MotorCall) × (focus far_motor 9 ≡ some (n, calls)) × Beyond far_motor n
far_motor_ends =
    focus_ends far_motor 1 4 2400 9 refl (λ i h. ground (arith, h)) (omega arith) (omega arith)
      (omega arith)

abbrev short_motor : ℕ → ℤ
short_motor n = if ltb n 100 then pos 0 else pos 1200

focus_stuck_example : focus short_motor 1000 ≡ none
focus_stuck_example = focus_stuck short_motor 1000 (λ i. ground arith)
