-- ===== src/Tests/Floats.antt =====
-- Numbers that stand for `f32` in the tests.
use bitfold.Prelude.{ℕ, ◌==◌, ◌+◌, ◌-◌, ◌*◌, ◌/◌, ltb, min, max}
use bitfold.Core.Float.{Float}

-- Thousandths in place of floating-point numbers.
abbrev pub thousandths : Float
thousandths = record {
  F32 = ℕ;
  literal = λ n d. n * 1000 / d;
  lt = ltb;
  eq = λ a b. a == b;
  add = λ a b. a + b;
  sub = λ a b. a - b;
  mul = λ a b. a * b / 1000;
  div = λ a b. a * 1000 / b;
  abs = λ a. a;
  minimum = min;
  maximum = max;
  from_nat = λ n. n * 1000;
  to_u64 = λ a. a / 1000;
}
