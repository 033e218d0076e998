-- ===== src/Sequence/Order.antt =====
-- Sequence numbers are `u16`, compared round the circle of 65536.
use bitfold.Prelude.{
  ℕ, ◌+◌, ◌-◌, ◌%◌, ◌≤◌, ◌<◌, ◌≡◌, ◌≢◌, ◌↔◌, ◌⊎◌, Bool, true, not, ◌&&◌, ◌||◌, arith, ltb, leb,
  ◌==◌,
}

unfoldable pub sequence_greater_than : ℕ → ℕ → Bool
sequence_greater_than s1 s2 =
    (ltb s2 s1 && leb (s1 - s2) 32768) || (ltb s1 s2 && ltb 32768 (s2 - s1))

unfoldable pub sequence_less_than : ℕ → ℕ → Bool
unfolding sequence_greater_than
sequence_less_than s1 s2 = sequence_greater_than s2 s1

-- `u16::wrapping_add(1)` and `u16::wrapping_sub`
abbrev pub next : ℕ → ℕ
next s = (s + 1) % 65536

abbrev pub wrapping_sub : ℕ → ℕ → ℕ
wrapping_sub a b = (a + 65536 - b) % 65536

-- Of two different sequence numbers exactly one is greater, and none is greater than itself.
pub sequence_greater_than_total :
    (s1 s2 : ℕ)
    → s1 < 65536
    → s2 < 65536
    → sequence_greater_than s2 s1 ≡ (not (s1 == s2) && not (sequence_greater_than s1 s2))
unfolding sequence_greater_than
sequence_greater_than_total s1 s2 h1 h2 = ground arith

-- A sequence number is greater than another exactly if it lies 1 to 32767 steps ahead on the circle
-- of 65536, or at the opposite point, where the larger number is the greater.
pub sequence_greater_than_iff :
    (s1 s2 : ℕ)
    → s1 < 65536
    → s2 < 65536
    → (sequence_greater_than s1 s2 ≡ true) ↔ (
        (1 ≤ wrapping_sub s1 s2) × (wrapping_sub s1 s2 < 32768)
        ⊎ (wrapping_sub s1 s2 ≡ 32768) × (s2 < s1))
unfolding sequence_greater_than
sequence_greater_than_iff s1 s2 h1 h2 = ground arith

-- The order is kept when both numbers move on by the same number of steps, short of the opposite
-- point.
pub sequence_greater_than_shift :
    (s1 s2 k : ℕ)
    → s1 < 65536
    → s2 < 65536
    → wrapping_sub s1 s2 ≢ 32768
    → sequence_greater_than ((s1 + k) % 65536) ((s2 + k) % 65536) ≡ sequence_greater_than s1 s2
unfolding sequence_greater_than
sequence_greater_than_shift s1 s2 k h1 h2 d = ground arith
