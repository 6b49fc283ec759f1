-- ===== src/AutoFocus/Ir/Ends.antt =====
-- When `AF_IR::Focus` ends.
use pre.AutoFocus.{at_most, is_zero}
use pre.AutoFocus.Laws.{Returns, returned, if_Returns}
use pre.AutoFocus.Ir.{MotorCall, move_ir_start, move_ir, step_length, equal, to_zero, to_end, focus}
use pre.Motor.Continuous.{backward}
use pre.Prelude.{
  if_cases, ◌>>=◌, ℕ, zero, suc, ◌+◌, ◌-◌, ◌*◌, ◌≤◌, ◌<◌, ◌≡◌, refl, subst, ◌&&◌, true, not, Option,
  none, some, List, [], ◌∷◌, arith,
}
use pre.Prelude.Int.{ℤ, pos, negsuc}

to_zero-Returns :
    (answer : ℕ → ℤ) (k fuel n : ℕ)
    → answer (n + 2 * k) ≡ pos 0
    → k < fuel
    → Returns (λ m. Unit {0}) (to_zero answer fuel n)
unfolding to_zero
to_zero-Returns answer k zero n h l = absurd (omega (arith, l))
to_zero-Returns answer zero (suc fuel) n h l =
    let here : answer n ≡ pos 0 =
      subst (λ i. answer i ≡ pos 0) {x = n + 2 * 0} {y = n} (omega arith) h in
    if_cases (Returns (λ m. Unit {0})) (is_zero (answer n)) (some (n + 1))
      (to_zero answer fuel (n + 2)) (λ e. tt) (λ e. absurd (ground (arith, here, e)))
to_zero-Returns answer (suc k) (suc fuel) n h l =
    if_Returns (λ m. Unit {0}) (is_zero (answer n)) (some (n + 1)) (to_zero answer fuel (n + 2)) tt
      (to_zero-Returns answer k fuel (n + 2)
        (subst (λ i. answer i ≡ pos 0) {x = n + 2 * suc k} {y = n + 2 + 2 * k} (omega arith) h)
        (omega (arith, l)))

-- That the last answer lies beyond 2000.
abbrev pub Beyond : (ℕ → ℤ) → ℕ → Type 0
Beyond answer n = (q : ℕ) × (answer (n - 1) ≡ pos q) × (2000 < q)

equal_beyond :
    (a b : ℤ) → (equal a b && not (at_most a 2000)) ≡ true → (q : ℕ) × (b ≡ pos q) × (2000 < q)
equal_beyond (pos a) (pos b) h = (b, refl, ground (arith, h))
equal_beyond (pos a) (negsuc b) h = absurd (ground (arith, h))
equal_beyond (negsuc a) (pos b) h = absurd (ground (arith, h))
equal_beyond (negsuc a) (negsuc b) h = absurd (ground (arith, h))

module _ (answer : ℕ → ℤ) where
  met-Beyond :
      (old : ℤ) (n : ℕ)
      → (equal old (answer (n + 1)) && not (at_most old 2000)) ≡ true
      → Beyond answer (n + 2)
  met-Beyond old n h =
      let (q, e, far) = equal_beyond old (answer (n + 1)) h in
      (q, subst (λ i. answer i ≡ pos q) {x = n + 1} {y = n + 2 - 1} (omega arith) e, far)

  module _ (m p : ℕ) (settled : (i : ℕ) → m ≤ i → answer i ≡ pos p) (far : 2000 < p) where
    last_round :
        (fuel n : ℕ) (old : ℤ) (sent : List MotorCall)
        → m ≤ n
        → old ≡ pos p
        → Returns (λ r. Beyond answer (r.0)) (to_end answer (suc fuel) old n sent)
    unfolding to_end
    last_round fuel n old sent h e =
        let again = settled (n + 1) (omega arith) in
        if_cases (Returns (λ r. Beyond answer (r.0)))
          (equal old (answer (n + 1)) && not (at_most old 2000))
          (some (n + 2, move_ir step_length ∷ sent))
          (to_end answer fuel (answer (n + 2)) (n + 3) (move_ir step_length ∷ sent))
          (λ met. met-Beyond old n met) (λ no. absurd (ground (arith, no, e, again, far)))

    to_end-Returns :
        (f fuel n : ℕ) (old : ℤ) (sent : List MotorCall)
        → m ≤ n + f
        → f + 2 ≤ fuel
        → Returns (λ r. Beyond answer (r.0)) (to_end answer fuel old n sent)
    unfolding to_end
    to_end-Returns zero (suc (suc fuel)) n old sent h l =
        if_cases (Returns (λ r. Beyond answer (r.0)))
          (equal old (answer (n + 1)) && not (at_most old 2000))
          (some (n + 2, move_ir step_length ∷ sent))
          (to_end answer (suc fuel) (answer (n + 2)) (n + 3) (move_ir step_length ∷ sent))
          (λ met. met-Beyond old n met)
          (λ no.
            last_round fuel (n + 3) (answer (n + 2)) (move_ir step_length ∷ sent) (omega (arith, h))
              (settled (n + 2) (omega (arith, h))))
    to_end-Returns (suc f) (suc fuel) n old sent h l =
        if_cases (Returns (λ r. Beyond answer (r.0)))
          (equal old (answer (n + 1)) && not (at_most old 2000))
          (some (n + 2, move_ir step_length ∷ sent))
          (to_end answer fuel (answer (n + 2)) (n + 3) (move_ir step_length ∷ sent))
          (λ met. met-Beyond old n met)
          (λ no.
            to_end-Returns f fuel (n + 3) (answer (n + 2)) (move_ir step_length ∷ sent)
              (omega (arith, h)) (omega (arith, l)))
    to_end-Returns zero zero n old sent h l = absurd (omega (arith, l))
    to_end-Returns zero (suc zero) n old sent h l = absurd (omega (arith, l))
    to_end-Returns (suc f) zero n old sent h l = absurd (omega (arith, l))

-- Where the motor answers 0 to a test of the first loop, and settles at last beyond 2000, `Focus` ends
-- after enough rounds, with an answer beyond 2000.
pub focus_ends :
    (answer : ℕ → ℤ) (k m p fuel : ℕ)
    → answer (2 * k) ≡ pos 0
    → ((i : ℕ) → m ≤ i → answer i ≡ pos p)
    → 2000 < p
    → k < fuel
    → m + 2 ≤ fuel
    → (n : ℕ) × (calls : List MotorCall) × (focus answer fuel ≡ some (n, calls)) × Beyond answer n
unfolding focus
focus_ends answer k m p fuel at_0 settled far k_fits m_fits =
    let (n, e, u) =
      returned (λ m. Unit {0}) (to_zero answer fuel 0)
        (to_zero-Returns answer k fuel 0
          (subst (λ i. answer i ≡ pos 0) {x = 2 * k} {y = 0 + 2 * k} (omega arith) at_0) k_fits) in
    let begun = move_ir_start backward ∷ [] in
    let (r, e', b) =
      returned (λ r. Beyond answer (r.0)) (to_end answer fuel (pos 0) n begun)
        (to_end-Returns answer m p settled far m fuel n (pos 0) begun (omega arith) m_fits) in
    (r.0, r.1, ground (arith, e, e'), b)

bind_none :
    {A B : Type 0} (o : Option A) (f : A → Option B) → ((a : A) → f a ≡ none) → (o >>= f) ≡ none
bind_none none f h = refl
bind_none (some a) f h = h a

to_end_stuck :
    (answer : ℕ → ℤ) (fuel n : ℕ) (old : ℤ) (sent : List MotorCall)
    → ((i : ℕ) → at_most (answer i) 2000 ≡ true)
    → at_most old 2000 ≡ true
    → to_end answer fuel old n sent ≡ none
unfolding to_end
to_end_stuck answer zero n old sent low h = refl
to_end_stuck answer (suc fuel) n old sent low h =
    let sent' = move_ir step_length ∷ sent in
    if_cases (λ o. o ≡ none) (equal old (answer (n + 1)) && not (at_most old 2000))
      (some (n + 2, sent')) (to_end answer fuel (answer (n + 2)) (n + 3) sent')
      (λ met. absurd (ground (arith, met, h)))
      (λ no. to_end_stuck answer fuel (n + 3) (answer (n + 2)) sent' low (low (n + 2)))

-- Where no answer lies beyond 2000, `Focus` never ends, however many rounds it is given.
pub focus_stuck :
    (answer : ℕ → ℤ) (fuel : ℕ)
    → ((i : ℕ) → at_most (answer i) 2000 ≡ true)
    → focus answer fuel ≡ none
unfolding focus
focus_stuck answer fuel low =
    bind_none (to_zero answer fuel 0) _
      (λ n. to_end_stuck answer fuel n (pos 0) (move_ir_start backward ∷ []) low refl)
