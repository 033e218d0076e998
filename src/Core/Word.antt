-- ===== src/Core/Word.antt =====
-- Checked arithmetic: the workspace builds with `overflow-checks = true`, and `panic = 'abort'`, so a
-- result out of range ends the program. `none` is that panic.
use bitfold.Prelude.{
  ℕ, ◌==◌, ◌/◌, ◌%◌, ◌+◌, ◌-◌, ◌*◌, Option, none, some, ltb, leb, if◌then◌else◌, min, max,
}

abbrev pub checked_add : ℕ → ℕ → ℕ → Option ℕ
checked_add bound a b = if ltb (a + b) bound then some (a + b) else none

abbrev pub checked_sub : ℕ → ℕ → Option ℕ
checked_sub a b = if leb b a then some (a - b) else none

abbrev pub checked_mul : ℕ → ℕ → ℕ → Option ℕ
checked_mul bound a b = if ltb (a * b) bound then some (a * b) else none

-- `Ord::clamp` panics if the bounds are the wrong way round.
abbrev pub clamp : ℕ → ℕ → ℕ → Option ℕ
clamp x lo hi = if leb lo hi then some (max lo (min x hi)) else none

-- `u32::saturating_add`
abbrev pub saturating_add32 : ℕ → ℕ → ℕ
saturating_add32 a b = min (a + b) 4294967295

-- `field | mask`, for a mask of one bit.
abbrev pub or_bit : ℕ → ℕ → ℕ
or_bit field mask = if field / mask % 2 == 0 then field + mask else field
