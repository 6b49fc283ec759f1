-- ===== src/Prelude/Floats.antt =====
-- The floating-point arithmetic of the target, which the sources use and do not define. Only the
-- operations are given: no law of real arithmetic is assumed of them.
use pre.Prelude.{ℕ, ◌+◌, ◌-◌, ◌*◌, ◌/◌, Bool, ltb}
use pre.Prelude.Int.{ℤ, pos_part}

pub record Floats : Type 1 where
  pub F : Type 0
  pub of_ℤ : ℤ → F
  pub add : F → F → F
  pub sub : F → F → F
  pub mul : F → F → F
  pub div : F → F → F
  pub lt : F → F → Bool
  -- the C conversion to an integer type of at least 0, which truncates
  pub to_ℕ : F → ℕ

-- Numbers in place of floats, for the examples.
abbrev pub whole : Floats
whole = record {
  F = ℕ;
  of_ℤ = pos_part;
  add = λ a b. a + b;
  sub = λ a b. a - b;
  mul = λ a b. a * b;
  div = λ a b. a / b;
  lt = ltb;
  to_ℕ = λ a. a;
}
