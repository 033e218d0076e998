-- ===== src/Core/Float.antt =====
-- `f32`: its arithmetic is not modelled. What the code does with it is a parameter.
use bitfold.Prelude.{ℕ, Bool}

pub record Float : Type 1 where
  pub F32 : Type 0
  -- The literal `n / d`.
  pub literal : ℕ → ℕ → F32
  pub lt : F32 → F32 → Bool
  pub eq : F32 → F32 → Bool
  pub add : F32 → F32 → F32
  pub sub : F32 → F32 → F32
  pub mul : F32 → F32 → F32
  pub div : F32 → F32 → F32
  pub abs : F32 → F32
  pub minimum : F32 → F32 → F32
  pub maximum : F32 → F32 → F32
  -- `as f32` of an integer, and `as u64`.
  pub from_nat : ℕ → F32
  pub to_u64 : F32 → ℕ
