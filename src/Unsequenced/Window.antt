-- ===== src/Unsequenced/Window.antt =====
-- What the window remembers.
use bitfold.Prelude.{
  ℕ, zero, suc, ◌+◌, ◌-◌, ◌/◌, ◌%◌, ◌^◌, ◌≤◌, ◌<◌, ◌≡◌, ◌≢◌, refl, ap, ◌∙◌, sym, true, false, List,
  [], ◌∷◌, arith, length, set, get_elem?-set, length-set, length-replicate, not, ltb, lt→ltb,
}
use mathlib.Core.Bool.{false≢true}
use native.Mathlib.Nat.{add-div_right, zero-div, one-le-pow}
use bitfold.Core.Word.{or_bit}
use bitfold.Sequence.Order.{wrapping_sub}
use bitfold.Unsequenced.{
  UnsequencedState, word_at, window_empty, has_bit, is_duplicate, shift_words, clear_words,
  shift_bits, word_shifted, bit_shifted, advanced, marked, mark_received,
}

or_bit-set : (w b : ℕ) → has_bit (or_bit w (2 ^ b)) b ≡ true
unfolding has_bit
or_bit-set w b =
    let m = 2 ^ b in
    let pos : 0 < m = one-le-pow b 2 (omega arith) in
    let up : (w + m) / m ≡ w / m + 1 = add-div_right w pos in ground (arith, up)

has_bit-zero : (b : ℕ) → has_bit 0 b ≡ false
unfolding has_bit
has_bit-zero b = let none_there : 0 / 2 ^ b ≡ 0 = zero-div (2 ^ b) in rw none_there refl

window_empty-set :
    (ws : List ℕ) (i v : ℕ) → i < length ws → v ≢ 0 → window_empty (set ws i v) ≡ false
unfolding window_empty
window_empty-set [] i v less d = absurd (omega arith)
window_empty-set (w ∷ ws) zero v less d = ground arith
window_empty-set (w ∷ ws) (suc i) v less d = ground (arith, window_empty-set ws i v)

length-shift_words : (turns i s : ℕ) (ws : List ℕ) → length (shift_words turns i s ws) ≡ length ws
unfolding shift_words
length-shift_words zero i s ws = refl
length-shift_words (suc turns) i s ws =
    length-shift_words turns (suc i) s (set ws i (word_at ws (i + s))) ∙ length-set ws i _

length-clear_words : (turns i : ℕ) (ws : List ℕ) → length (clear_words turns i ws) ≡ length ws
unfolding clear_words
length-clear_words zero i ws = refl
length-clear_words (suc turns) i ws =
    length-clear_words turns (suc i) (set ws i 0) ∙ length-set ws i 0

length-shift_bits : (turns i s : ℕ) (ws : List ℕ) → length (shift_bits turns i s ws) ≡ length ws
unfolding shift_bits
length-shift_bits zero i s ws = refl
length-shift_bits (suc turns) i s ws =
    length-shift_bits turns (suc i) s (set ws i _) ∙ length-set ws i _

length-word_shifted : (s : ℕ) (ws : List ℕ) → length ws ≡ 32 → length (word_shifted s ws) ≡ 32
unfolding word_shifted
length-word_shifted s ws e = ground (
  arith,
  length-replicate {A = ℕ} 32 0,
  length-clear_words s (32 - s) (shift_words (32 - s) 0 s ws),
  length-shift_words (32 - s) 0 s ws,
)

length-bit_shifted : (s b : ℕ) (ws : List ℕ) → length ws ≡ 32 → length (bit_shifted s b ws) ≡ 32
unfolding bit_shifted
length-bit_shifted s b ws e =
    let shifted = shift_bits 31 0 b ws in
    ground (arith, length-shift_bits 31 0 b ws, length-set shifted 31 (word_at shifted 31 / 2 ^ b))

length-advanced :
    (u : UnsequencedState) (offset : ℕ)
    → length u.unsequenced_window ≡ 32
    → length (advanced u offset).unsequenced_window ≡ 32
unfolding advanced
length-advanced u offset e =
    let s = (offset - 512) / 32 in
    ground (
      arith,
      length-word_shifted s u.unsequenced_window e,
      length-bit_shifted s ((offset - 512) % 32) (word_shifted s u.unsequenced_window),
    )

-- The place of a group in the window, once the window has moved.
offset-advanced :
    (u : UnsequencedState) (group : ℕ)
    → group < 65536
    → u.incoming_unsequenced_group < 65536
    → wrapping_sub group u.incoming_unsequenced_group ≤ 32768
    → wrapping_sub group
        (advanced u (wrapping_sub group u.incoming_unsequenced_group)).incoming_unsequenced_group
      < 1024
unfolding advanced
offset-advanced u group hg hb near = ground arith

marked-has_bit :
    (ws : List ℕ) (offset : ℕ)
    → length ws ≡ 32
    → offset < 1024
    → let i = offset / 32 in
      let v = or_bit (word_at ws i) (2 ^ (offset % 32)) in
      (has_bit (word_at (set ws i v) i) (offset % 32) ≡ true) × (window_empty (set ws i v) ≡ false)
marked-has_bit ws offset e less =
    let i = offset / 32 in
    let v = or_bit (word_at ws i) (2 ^ (offset % 32)) in
    let bit = or_bit-set (word_at ws i) (offset % 32) in
    let there : word_at (set ws i v) i ≡ v = ground (arith, get_elem?-set ws i i v) in
    (
      ap (λ w. has_bit w (offset % 32)) there ∙ bit,
      window_empty-set ws i v (omega arith) (λ zero_word. false≢true (
          sym (has_bit-zero (offset % 32))
          ∙ ap (λ w. has_bit w (offset % 32)) (sym zero_word)
          ∙ bit)),
    )

-- A group that is not behind the window is a duplicate once it has been marked, also where marking
-- it moves the window.
pub mark_received-is_duplicate :
    (u : UnsequencedState) (group : ℕ)
    → group < 65536
    → u.incoming_unsequenced_group < 65536
    → length u.unsequenced_window ≡ 32
    → wrapping_sub group u.incoming_unsequenced_group ≤ 32768
    → is_duplicate (mark_received u group) group ≡ true
unfolding mark_received marked is_duplicate
mark_received-is_duplicate u group hg hb size near =
    let moved = advanced u (wrapping_sub group u.incoming_unsequenced_group) in
    let offset = wrapping_sub group moved.incoming_unsequenced_group in
    let less = offset-advanced u group hg hb near in
    let inside : ltb offset 1024 ≡ true = lt→ltb _ _ less in
    let (bit, used) =
      marked-has_bit moved.unsequenced_window offset (length-advanced u _ size) less in
    rw (inside, used, inside, bit)

advanced-behind : (u : UnsequencedState) (offset : ℕ) → 32768 < offset → advanced u offset ≡ u
unfolding advanced
advanced-behind u offset far = ground arith

marked-behind : (u : UnsequencedState) (offset : ℕ) → 32768 < offset → marked u offset ≡ u
unfolding marked
marked-behind u offset far = ground arith

-- Marking a group behind the window changes nothing, and it is a duplicate exactly if the window has
-- a bit set: with an empty window every copy of such a packet is delivered.
pub mark_received-behind :
    (u : UnsequencedState) (group : ℕ)
    → 32768 < wrapping_sub group u.incoming_unsequenced_group
    → (mark_received u group ≡ u)
      × (is_duplicate (mark_received u group) group ≡ not (window_empty u.unsequenced_window))
unfolding mark_received is_duplicate
mark_received-behind u group far =
    let offset = wrapping_sub group u.incoming_unsequenced_group in
    let same : mark_received u group ≡ u =
      rw (advanced-behind u offset far) (marked-behind u offset far) in
    (same, ap (λ v. is_duplicate v group) same ∙ duplicate)
  where
    duplicate : is_duplicate u group ≡ not (window_empty u.unsequenced_window)
    duplicate = ground arith
