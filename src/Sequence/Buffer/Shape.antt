-- ===== src/Sequence/Buffer/Shape.antt =====
-- The arrays of a `SequenceBuffer` keep their size.
use bitfold.Prelude.{
  ℕ, zero, suc, ◌+◌, ◌-◌, ◌%◌, ◌<◌, ◌≡◌, arith, none, some, length, length-set, length-replicate,
}
use bitfold.Sequence.Buffer.{
  SequenceBuffer, with_capacity, index, remove, remove_range, clear_all, remove_entries,
  advance_sequence, insert, unwrapped,
}

-- Both arrays have `n` places, and the next sequence number is a `u16`.
pub record HasShape {ℓ} {T : Type ℓ} (n : ℕ) (b : SequenceBuffer T) : Type 0 where
  pub sequences : length b.entry_sequences ≡ n
  pub items : length b.entries ≡ n
  pub number : b.sequence_num < 65536

module _ {ℓ} {T : Type ℓ} (default : T) where
  with_capacity-HasShape : (n : ℕ) → HasShape n (with_capacity default n)
  unfolding with_capacity
  with_capacity-HasShape n = record {
    sequences = length-replicate n _;
    items = length-replicate n default;
    number = omega arith;
  }

  remove-HasShape :
      {n : ℕ} (b : SequenceBuffer T) (s : ℕ) → HasShape n b → HasShape n (remove default b s).1
  unfolding remove
  remove-HasShape b s h = ground (
    arith,
    length-set b.entry_sequences (index b s) none,
    length-set b.entries (index b s) default,
  )

  remove_range-HasShape :
      {n : ℕ} (k s : ℕ) (b : SequenceBuffer T)
      → HasShape n b
      → HasShape n (remove_range default k s b)
  unfolding remove_range
  remove_range-HasShape zero s b h = h
  remove_range-HasShape (suc k) s b h =
      remove_range-HasShape k (s + 1) (remove default b (s % 65536)).1
        (remove-HasShape b (s % 65536) h)

  clear_all-HasShape :
      {n : ℕ} (b : SequenceBuffer T) → HasShape n b → HasShape n (clear_all default b)
  unfolding clear_all
  clear_all-HasShape b h = record {
    sequences = rw (length-replicate (length b.entry_sequences)) h.sequences;
    items = rw (length-replicate (length b.entries)) h.items;
    number = h.number;
  }

  remove_entries-HasShape :
      {n : ℕ} (b : SequenceBuffer T) (s : ℕ)
      → HasShape n b
      → HasShape n (remove_entries default b s)
  unfolding remove_entries
  remove_entries-HasShape b s h = ground (
    arith,
    remove_range-HasShape (unwrapped b.sequence_num s - b.sequence_num + 1) b.sequence_num b h,
    clear_all-HasShape b h,
  )

  pub advance_sequence-HasShape :
      {n : ℕ} (b : SequenceBuffer T) (s : ℕ)
      → HasShape n b
      → HasShape n (advance_sequence default b s)
  unfolding advance_sequence
  advance_sequence-HasShape b s h = ground (arith, remove_entries-HasShape b s h)

  -- An insertion keeps the number of places of both arrays and the range of the next number.
  pub insert-HasShape :
      {n : ℕ} (b : SequenceBuffer T) (s : ℕ) (e : T)
      → HasShape n b
      → HasShape n (insert default b s e).1
  unfolding insert
  insert-HasShape b s e h =
      let b' = advance_sequence default b s in
      ground (
        arith,
        advance_sequence-HasShape b s h,
        length-set b'.entry_sequences (index b' s) (some s),
        length-set b'.entries (index b' s) e,
      )
