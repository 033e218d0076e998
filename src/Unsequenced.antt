-- ===== src/Unsequenced.antt =====
-- crates/bitfold-peer/src/unsequenced.rs: the window of 1024 bits that finds duplicates of unsequenced
-- packets. A bit of a word is read by a division.
pub mod Window
use bitfold.Prelude.{
  ℕ, zero, suc, ◌+◌, ◌-◌, ◌*◌, ◌/◌, ◌%◌, ◌^◌, Bool, true, false, ◌&&◌, List, [], ◌∷◌, Option, none,
  some, get_elem?, set, replicate, ltb, leb, ◌==◌, if◌then◌else◌,
}
use bitfold.Core.Word.{or_bit}
use bitfold.Sequence.Order.{next, wrapping_sub}

pub record UnsequencedState : Type 0 where
  pub incoming_unsequenced_group : ℕ
  pub unsequenced_window : List ℕ
  pub outgoing_unsequenced_group : ℕ

unfoldable pub new : UnsequencedState
new = record {
  incoming_unsequenced_group = 0;
  unsequenced_window = replicate 32 0;
  outgoing_unsequenced_group = 0;
}

-- The group, and the state.
unfoldable pub next_outgoing_group : UnsequencedState → ℕ × UnsequencedState
next_outgoing_group u = (
  u.outgoing_unsequenced_group,
  record u { outgoing_unsequenced_group = next u.outgoing_unsequenced_group },
)

-- `self.unsequenced_window[i]`, inside the 32 words.
abbrev pub or_zero : Option ℕ → ℕ
or_zero none = 0
or_zero (some w) = w

abbrev pub word_at : List ℕ → ℕ → ℕ
word_at window i = or_zero (get_elem? window i)

unfoldable pub window_empty : List ℕ → Bool
window_empty [] = true
window_empty (w ∷ ws) = (w == 0) && window_empty ws

-- `word & (1 << bit) != 0`
unfoldable pub has_bit : ℕ → ℕ → Bool
has_bit word bit = word / 2 ^ bit % 2 == 1

unfoldable pub is_duplicate : UnsequencedState → ℕ → Bool
is_duplicate u group =
    let offset = wrapping_sub group u.incoming_unsequenced_group in
    if window_empty u.unsequenced_window
    then false
    else if ltb offset 1024
    then has_bit (word_at u.unsequenced_window (offset / 32)) (offset % 32)
    else ltb 32768 offset

-- `for i in 0..(32 - word_shift)`, by the turns left.
unfoldable pub shift_words : ℕ → ℕ → ℕ → List ℕ → List ℕ
shift_words zero i word_shift window = window
shift_words (suc turns) i word_shift window =
    shift_words turns (suc i) word_shift (set window i (word_at window (i + word_shift)))

-- `for i in (32 - word_shift)..32`
unfoldable pub clear_words : ℕ → ℕ → List ℕ → List ℕ
clear_words zero i window = window
clear_words (suc turns) i window = clear_words turns (suc i) (set window i 0)

-- `for i in 0..31`. The two operands of `|` have no bit in common.
unfoldable pub shift_bits : ℕ → ℕ → ℕ → List ℕ → List ℕ
shift_bits zero i bit_shift window = window
shift_bits (suc turns) i bit_shift window = shift_bits turns (suc i) bit_shift (
    set window i
      (word_at window i / 2 ^ bit_shift + word_at window (suc i) * 2 ^ (32 - bit_shift) % 2 ^ 32))

-- The shift of the words, and that of the bits within them.
unfoldable pub word_shifted : ℕ → List ℕ → List ℕ
word_shifted word_shift window =
    if ltb 0 word_shift
    then if leb 32 word_shift
      then replicate 32 0
      else clear_words word_shift (32 - word_shift)
          (shift_words (32 - word_shift) 0 word_shift window)
    else window

unfoldable pub bit_shifted : ℕ → ℕ → List ℕ → List ℕ
bit_shifted word_shift bit_shift window =
    let shifted = shift_bits 31 0 bit_shift window in
    if ltb 0 bit_shift && ltb word_shift 32
    then set shifted 31 (word_at shifted 31 / 2 ^ bit_shift)
    else window

-- A group that is far ahead moves the window.
unfoldable pub advanced : UnsequencedState → ℕ → UnsequencedState
advanced u offset =
    let advance = offset - 512 in
    if leb 1024 offset && leb offset 32768
    then record u {
      unsequenced_window =
          bit_shifted (advance / 32) (advance % 32)
            (word_shifted (advance / 32) u.unsequenced_window);
      incoming_unsequenced_group = (u.incoming_unsequenced_group + advance) % 65536;
    }
    else u

unfoldable pub marked : UnsequencedState → ℕ → UnsequencedState
marked u offset =
    if ltb offset 1024
    then record u {
      unsequenced_window =
          set u.unsequenced_window (offset / 32)
            (or_bit (word_at u.unsequenced_window (offset / 32)) (2 ^ (offset % 32)));
    }
    else u

unfoldable pub mark_received : UnsequencedState → ℕ → UnsequencedState
mark_received u group =
    let u' = advanced u (wrapping_sub group u.incoming_unsequenced_group) in
    marked u' (wrapping_sub group u'.incoming_unsequenced_group)
