-- ===== src/AutoFocus/Laws.antt =====
-- What the autofocus keeps of its arrays, and that it stays inside of them.
use pre.AutoFocus.{
  Sharpness, Scene, Entry, AutoFocusing, record_eig, set_eig, sample, get_motor_current_pos,
  ir_motor_move, find_max_value, at_most, is_zero,
}
use pre.AutoFocus.Run.{wait_for, move_to_zero, move_forward, move_to_max, approach, move_to_best}
use pre.Prelude.{
  ℕ, zero, suc, ◌+◌, ◌≤◌, ◌<◌, ◌≡◌, refl, Bool, true, false, not, ◌||◌, Option, some, none, List,
  [], ◌∷◌, length, sym, ◌∙◌, ◌*◌, subst, if_cases, lt→ltb, if◌then◌else◌, ◌>>=◌, arith, ltb,
}
use pre.Prelude.Int.{ℤ, pos, negsuc, ◌-ℤ◌}

-- Whether a result is there and satisfies a predicate.
abbrev pub Returns : {A : Type 0} → (A → Type 0) → Option A → Type 0
Returns P none = ⊥
Returns P (some a) = P a

pub returned :
    {A : Type 0} (P : A → Type 0) (o : Option A) → Returns P o → (a : A) × (o ≡ some a) × P a
returned P none h = elim h [ ]
returned P (some a) h = (a, refl, h)

pub bind-Returns :
    {A B : Type 0} (P : A → Type 0) (Q : B → Type 0) (o : Option A) (f : A → Option B)
    → Returns P o
    → ((a : A) → P a → Returns Q (f a))
    → Returns Q (o >>= f)
bind-Returns P Q none f h k = elim h [ ]
bind-Returns P Q (some a) f h k = k a h

pub if_Returns :
    {A : Type 0} (P : A → Type 0) (b : Bool) (o o' : Option A)
    → Returns P o
    → Returns P o'
    → Returns P (if b then o else o')
if_Returns P true o o' h h' = h
if_Returns P false o o' h h' = h'

-- No value is recorded twice in a row.
abbrev pub IsDistinct : (ops : Sharpness) → List (Entry ops) → Type 0
IsDistinct ops [] = Unit
IsDistinct ops (e ∷ []) = Unit
IsDistinct ops (e ∷ d ∷ es) = (ops.eq e.value d.value ≡ false) × IsDistinct ops (d ∷ es)

-- The arrays' contents, with bounds on `list_index`.
abbrev pub Within : (ops : Sharpness) → ℕ → ℕ → List (Entry ops) → Type 0
Within ops lo hi es = IsDistinct ops es × (lo ≤ length es) × (length es ≤ hi)

pub widen :
    (ops : Sharpness) (lo hi lo' hi' : ℕ) (es : List (Entry ops))
    → hi ≤ hi'
    → lo' ≤ lo
    → Within ops lo hi es
    → Within ops lo' hi' es
widen ops lo hi lo' hi' es h h' (d, l, u) = (d, omega (arith, l, h'), omega (arith, u, h))

record_eig_lem :
    (ops : Sharpness) (lo hi : ℕ) (e : Entry ops) (es : List (Entry ops))
    → hi < 600
    → Within ops lo hi es
    → Returns (Within ops lo (suc hi)) (record_eig ops e es)
unfolding record_eig
record_eig_lem ops lo hi e [] h (d, l, u) = (tt, omega (arith, l), omega arith)
record_eig_lem ops lo hi e (d ∷ es) h (dis, l, u) =
    if_cases (Returns (Within ops lo (suc hi))) (ops.eq e.value d.value) (some (d ∷ es))
      (if ltb (length (d ∷ es)) 600 then some (e ∷ d ∷ es) else none)
      (λ same. (dis, l, omega (arith, u)))
      (λ other.
        subst (λ b. Returns (Within ops lo (suc hi)) (if b then some (e ∷ d ∷ es) else none))
          (sym (lt→ltb (length (d ∷ es)) 600 (omega (arith, u, h))))
          ((other, dis), omega (arith, l), omega (arith, u)))

set_eig_lem :
    (ops : Sharpness) (scene : Scene ops) (lo hi : ℕ) (p : ℤ) (s : AutoFocusing ops)
    → hi < 600
    → Within ops lo hi s.entries
    → Returns (λ r. Within ops lo (suc hi) r.entries) (set_eig ops scene p s)
unfolding set_eig
set_eig_lem ops scene lo hi (negsuc n) s h w =
    widen ops lo hi lo (suc hi) s.entries (omega arith) (omega arith) w
set_eig_lem ops scene lo hi (pos n) s h w =
    let value = scene.get_eig s.reads in
    let e : Entry ops = record { value = value; motor_pos = s.current_motor_pos; return_pos = n } in
    bind-Returns (Within ops lo (suc hi)) (λ r. Within ops lo (suc hi) r.entries)
      (record_eig ops e s.entries) (λ es. some (record s { eig = value; entries = es }))
      (record_eig_lem ops lo hi e s.entries h w) (λ es k. k)

pub sample_lem :
    (ops : Sharpness) (scene : Scene ops) (lo hi : ℕ) (s : AutoFocusing ops)
    → hi < 600
    → Within ops lo hi s.entries
    → Returns (λ r. Within ops lo (suc hi) (r.1.entries)) (sample ops scene s)
unfolding sample get_motor_current_pos
sample_lem ops scene lo hi s h w =
    let s' = record s { reads = suc s.reads } in
    bind-Returns (λ r. Within ops lo (suc hi) r.entries) (λ r. Within ops lo (suc hi) (r.1.entries))
      (set_eig ops scene (scene.position s.reads) s') (λ r. some (scene.position s.reads, r))
      (set_eig_lem ops scene lo hi (scene.position s.reads) s' h w) (λ r k. k)

wait_for_lem :
    (ops : Sharpness) (scene : Scene ops) (test : ℤ → Bool) (left lo hi top : ℕ)
    (s : AutoFocusing ops)
    → hi + left ≤ top
    → top ≤ 600
    → Within ops lo hi s.entries
    → Returns (λ r. Within ops lo top (r.1.entries)) (wait_for ops scene test left s)
unfolding wait_for
wait_for_lem ops scene test zero lo hi top s h t w =
    widen ops lo hi lo top s.entries (omega (arith, h)) (omega arith) w
wait_for_lem ops scene test (suc left) lo hi top s h t w =
    bind-Returns (λ r. Within ops lo (suc hi) (r.1.entries)) (λ r. Within ops lo top (r.1.entries))
      (sample ops scene s) _ (sample_lem ops scene lo hi s (omega (arith, h, t)) w)
      (λ (p, s') k.
        if_Returns (λ r. Within ops lo top (r.1.entries)) (test p) (some (true, s'))
          (wait_for ops scene test left s')
          (widen ops lo (suc hi) lo top s'.entries (omega (arith, h)) (omega arith) k)
          (wait_for_lem ops scene test left lo (suc hi) top s' (omega (arith, h)) t k))

pub move_to_zero_lem :
    (ops : Sharpness) (scene : Scene ops) (left lo hi top : ℕ) (s : AutoFocusing ops)
    → hi + left * 100 ≤ top
    → top ≤ 600
    → Within ops lo hi s.entries
    → Returns (λ r. Within ops lo top r.entries) (move_to_zero ops scene left s)
unfolding move_to_zero get_motor_current_pos ir_motor_move
move_to_zero_lem ops scene zero lo hi top s h t w =
    widen ops lo hi lo top s.entries (omega (arith, h)) (omega arith) w
move_to_zero_lem ops scene (suc left) lo hi top s h t w =
    bind-Returns (λ r. Within ops lo (hi + 100) (r.1.entries)) (λ r. Within ops lo top r.entries)
      (wait_for ops scene is_zero 100 (ir_motor_move ops (negsuc 2999) s)) _
      (wait_for_lem ops scene is_zero 100 lo hi (hi + 100) _ (omega arith) (omega (arith, h, t)) w)
      (λ (met, s') k.
        let s'' = record s' { reads = suc s'.reads } in
        if_Returns (λ r. Within ops lo top r.entries) (is_zero (scene.position s'.reads)) (some s'')
          (move_to_zero ops scene left s'')
          (widen ops lo (hi + 100) lo top s'.entries (omega (arith, h)) (omega arith) k)
          (move_to_zero_lem ops scene left lo (hi + 100) top s'' (omega (arith, h)) t k))

pub move_to_max_lem :
    (ops : Sharpness) (scene : Scene ops) (left lo hi top : ℕ) (s : AutoFocusing ops)
    → hi + left * 100 ≤ top
    → top ≤ 600
    → Within ops lo hi s.entries
    → Returns (λ r. Within ops lo top r.entries) (move_to_max ops scene left s)
unfolding move_to_max move_forward get_motor_current_pos ir_motor_move
move_to_max_lem ops scene zero lo hi top s h t w =
    widen ops lo hi lo top s.entries (omega (arith, h)) (omega arith) w
move_to_max_lem ops scene (suc left) lo hi top s h t w =
    let far : ℤ → Bool = λ p. not (at_most p 1200) in
    bind-Returns (λ r. Within ops lo (hi + 100) (r.1.entries)) (λ r. Within ops lo top r.entries)
      (wait_for ops scene far 100 (move_forward ops scene s)) _
      (wait_for_lem ops scene far 100 lo hi (hi + 100) _ (omega arith) (omega (arith, h, t)) w)
      (λ (met, s') k.
        if_Returns (λ r. Within ops lo top r.entries) met (some s') (move_to_max ops scene left s')
          (widen ops lo (hi + 100) lo top s'.entries (omega (arith, h)) (omega arith) k)
          (move_to_max_lem ops scene left lo (hi + 100) top s' (omega (arith, h)) t k))

-- The return to the best position records nothing.
approach-entries :
    (ops : Sharpness) (scene : Scene ops) (target left : ℕ) (s : AutoFocusing ops)
    → (approach ops scene target left s).1.entries ≡ s.entries
unfolding approach get_motor_current_pos ir_motor_move
approach-entries ops scene target zero s = refl
approach-entries ops scene target (suc left) s =
    let (p, s1) = get_motor_current_pos ops scene s in
    let s2 = ir_motor_move ops (pos target -ℤ p) s1 in
    if_cases {A = Bool × AutoFocusing ops} (λ r. r.1.entries ≡ s.entries)
      (ops.eq (find_max_value ops s2.entries) s2.eig || at_most p target) (true, s2)
      (approach ops scene target left s2) (λ e. refl)
      (λ e. approach-entries ops scene target left s2)

pub move_to_best-entries :
    (ops : Sharpness) (scene : Scene ops) (target left : ℕ) (s : AutoFocusing ops)
    → (move_to_best ops scene target left s).entries ≡ s.entries
unfolding move_to_best move_forward get_motor_current_pos ir_motor_move
move_to_best-entries ops scene target zero s = refl
move_to_best-entries ops scene target (suc left) s =
    let s1 = move_forward ops scene s in
    let (met, s2) = approach ops scene target 100 s1 in
    let same = approach-entries ops scene target 100 s1 in
    if_cases {A = AutoFocusing ops} (λ r. r.entries ≡ s.entries) met s2
      (move_to_best ops scene target left s2) (λ e. same)
      (λ e. move_to_best-entries ops scene target left s2 ∙ same)
