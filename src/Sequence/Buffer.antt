-- ===== src/Sequence/Buffer.antt =====
-- `SequenceBuffer`. The length of the arrays is fixed by `with_capacity`, at a size that is not 0.
pub mod Shape
pub mod Contents
use bitfold.Prelude.{
  ℕ, zero, suc, ◌+◌, ◌-◌, ◌*◌, ◌%◌, ◌≤◌, ◌<◌, ◌≡◌, Bool, true, false, List, [], ◌∷◌, Option, none,
  some, length, get_elem?, set, replicate, ltb, leb, ◌==◌, if◌then◌else◌,
}
use bitfold.Sequence.Order.{sequence_greater_than, sequence_less_than, next, wrapping_sub}

pub record SequenceBuffer {ℓ} (T : Type ℓ) : Type ℓ where
  pub sequence_num : ℕ
  pub entry_sequences : List (Option ℕ)
  pub entries : List T

-- `self.entry_sequences[i]` holds `s`; a place out of range, where the code would panic, holds none.
abbrev pub holds : Option (Option ℕ) → ℕ → Bool
holds none s = false
holds (some none) s = false
holds (some (some t)) s = t == s

-- `finish_sequence` after the correction for wrapping.
abbrev pub unwrapped : ℕ → ℕ → ℕ
unwrapped start finish = if ltb finish start then finish + 65536 else finish

module _ {ℓ} {T : Type ℓ} where
  unfoldable pub index : SequenceBuffer T → ℕ → ℕ
  index b sequence = sequence % length b.entry_sequences

  unfoldable pub exists : SequenceBuffer T → ℕ → Bool
  unfolding index
  exists b sequence_num = holds (get_elem? b.entry_sequences (index b sequence_num)) sequence_num

  -- The entry that `get_mut` points to.
  unfoldable pub get_mut : SequenceBuffer T → ℕ → Option T
  get_mut b sequence_num =
      if exists b sequence_num then get_elem? b.entries (index b sequence_num) else none

  -- The guard of `insert`; the window's size is cast to `u16`.
  abbrev pub too_old : SequenceBuffer T → ℕ → Bool
  too_old b sequence_num =
      sequence_less_than sequence_num
        (wrapping_sub b.sequence_num (length b.entry_sequences % 65536))

-- `T::default()` is a parameter.
module _ {ℓ} {T : Type ℓ} (default : T) where
  unfoldable pub with_capacity : ℕ → SequenceBuffer T
  with_capacity size = record {
    sequence_num = 0;
    entry_sequences = replicate size none;
    entries = replicate size default;
  }

  unfoldable pub remove : SequenceBuffer T → ℕ → Option T × SequenceBuffer T
  remove b sequence_num =
      if exists b sequence_num
      then (
        get_elem? b.entries (index b sequence_num),
        record b {
          entries = set b.entries (index b sequence_num) default;
          entry_sequences = set b.entry_sequences (index b sequence_num) none;
        },
      )
      else (none, b)

  -- `for sequence in start..=finish { self.remove(sequence as u16) }`, by the rounds left.
  unfoldable pub remove_range : ℕ → ℕ → SequenceBuffer T → SequenceBuffer T
  remove_range zero sequence b = b
  remove_range (suc rounds) sequence b =
      remove_range rounds (sequence + 1) (remove b (sequence % 65536)).1

  unfoldable pub clear_all : SequenceBuffer T → SequenceBuffer T
  clear_all b = record b {
    entries = replicate (length b.entries) default;
    entry_sequences = replicate (length b.entry_sequences) none;
  }

  unfoldable pub remove_entries : SequenceBuffer T → ℕ → SequenceBuffer T
  remove_entries b finish_sequence =
      let start = b.sequence_num in
      let finish = unwrapped start finish_sequence in
      if ltb (finish - start) (length b.entry_sequences)
      then remove_range (finish - start + 1) start b
      else clear_all b

  unfoldable pub advance_sequence : SequenceBuffer T → ℕ → SequenceBuffer T
  advance_sequence b sequence_num =
      if sequence_greater_than (next sequence_num) b.sequence_num
      then record (remove_entries b sequence_num) { sequence_num = next sequence_num }
      else b

  -- Whether the entry was taken, and the buffer.
  unfoldable pub insert : SequenceBuffer T → ℕ → T → Bool × SequenceBuffer T
  insert b sequence_num entry =
      if too_old b sequence_num
      then (false, b)
      else let b' = advance_sequence b sequence_num in
        (
          true,
          record b' {
            entry_sequences = set b'.entry_sequences (index b' sequence_num) (some sequence_num);
            entries = set b'.entries (index b' sequence_num) entry;
          },
        )
