-- ===== src/Sequence/Buffer/Contents.antt =====
-- What a `SequenceBuffer` holds after each operation.
use bitfold.Prelude.{
  ℕ, zero, suc, ◌+◌, ◌-◌, ◌%◌, ◌<◌, ◌≡◌, ◌≢◌, inl, inr, Bool, true, false, List, Option, none, some,
  arith, length, get_elem?, set, get_elem?-set, get_elem?-replicate, length-set, if◌then◌else◌, sym,
  get_elem?-past, Bool-cases, ltb, ◌==◌, ◌∙◌, replicate,
}
use mathlib.Core.Bool.{false≢true}
use bitfold.Sequence.Order.{sequence_greater_than, next}
use bitfold.Sequence.Buffer.{
  SequenceBuffer, holds, exists, too_old, remove, remove_range, clear_all, remove_entries,
  advance_sequence, insert, unwrapped,
}
use bitfold.Sequence.Buffer.Shape.{HasShape, advance_sequence-HasShape}

-- `exists` over the array alone.
abbrev at_slot : List (Option ℕ) → ℕ → Bool
at_slot es s = holds (get_elem? es (s % length es)) s

at_slot-set-none :
    (es : List (Option ℕ)) (s t : ℕ)
    → at_slot es s ≡ true
    → at_slot (set es (s % length es) none) t ≡ (if s == t then false else at_slot es t)
at_slot-set-none es s t h = rw (length-set es (s % length es) none) (
    ground (
      arith,
      get_elem?-set es (s % length es) (t % length es) none,
      get_elem?-past es (s % length es),
    ))

at_slot-set-some :
    (es : List (Option ℕ)) (s t : ℕ)
    → at_slot (set es (s % length es) (some s)) t ≡ true
    → t ≢ s
    → at_slot es t ≡ true
at_slot-set-some es s t h d = ground (
  arith,
  length-set es (s % length es) (some s),
  get_elem?-set es (s % length es) (t % length es) (some s),
)

at_slot-set_self :
    (es : List (Option ℕ)) (s : ℕ)
    → 0 < length es
    → at_slot (set es (s % length es) (some s)) s ≡ true
at_slot-set_self es s h =
    rw (length-set es (s % length es) (some s))
      (ground (arith, get_elem?-set es (s % length es) (s % length es) (some s)))

at_slot-replicate : (n s : ℕ) → at_slot (replicate n none) s ≡ false
at_slot-replicate n s = ground (
  arith,
  get_elem?-replicate {A = Option ℕ} n (s % length (replicate {A = Option ℕ} n none)) none,
)

module _ {ℓ} {T : Type ℓ} (default : T) where
  sequences-remove :
      (b : SequenceBuffer T) (s : ℕ)
      → (remove default b s).1.entry_sequences ≡ (
          if at_slot b.entry_sequences s
          then set b.entry_sequences (s % length b.entry_sequences) none
          else b.entry_sequences)
  unfolding remove exists
  sequences-remove b s = ground arith

  -- A removal takes out the number that it names, and no other.
  pub exists-remove :
      (b : SequenceBuffer T) (s t : ℕ)
      → exists (remove default b s).1 t ≡ (if s == t then false else exists b t)
  unfolding exists
  exists-remove b s t = elim (Bool-cases (at_slot b.entry_sequences s)) [
    | inl e ↦ rw (sequences-remove b s, e) (at_slot-set-none b.entry_sequences s t e)
    | inr e ↦ rw (sequences-remove b s, e) (ground arith)
  ]

  exists-remove_range :
      (k s : ℕ) (b : SequenceBuffer T) (t : ℕ)
      → exists (remove_range default k s b) t ≡ true
      → exists b t ≡ true
  unfolding remove_range
  exists-remove_range zero s b t h = h
  exists-remove_range (suc k) s b t h = ground (
    arith,
    exists-remove b (s % 65536) t,
    exists-remove_range k (s + 1) (remove default b (s % 65536)).1 t h,
  )

  exists-clear_all : (b : SequenceBuffer T) (t : ℕ) → exists (clear_all default b) t ≡ false
  unfolding clear_all exists
  exists-clear_all b t = at_slot-replicate (length b.entry_sequences) t

  exists-remove_entries :
      (b : SequenceBuffer T) (s t : ℕ)
      → exists (remove_entries default b s) t ≡ true
      → exists b t ≡ true
  unfolding remove_entries
  exists-remove_entries b s t h =
      let start = b.sequence_num in
      let finish = unwrapped start s in
      elim (Bool-cases (ltb (finish - start) (length b.entry_sequences))) [
        | inl near ↦
            exists-remove_range (finish - start + 1) start b t (rw (near, remove_entries) at h)
        | inr far ↦
            absurd (false≢true (sym (exists-clear_all b t) ∙ (rw (far, remove_entries) at h)))
      ]

  exists-advance_sequence :
      (b : SequenceBuffer T) (s t : ℕ)
      → exists (advance_sequence default b s) t ≡ true
      → exists b t ≡ true
  unfolding advance_sequence exists
  exists-advance_sequence b s t h =
      elim (Bool-cases (sequence_greater_than (next s) b.sequence_num)) [
        | inl newer ↦ exists-remove_entries b s t (rw (newer, advance_sequence) at h)
        | inr older ↦ rw (older, advance_sequence) at h
      ]

  -- Inserting never makes a number appear received that was not: what exists afterwards is the
  -- inserted number, or existed before.
  pub exists-insert :
      (b : SequenceBuffer T) (s t : ℕ) (e : T)
      → t ≢ s
      → exists (insert default b s e).1 t ≡ true
      → exists b t ≡ true
  unfolding insert exists
  exists-insert b s t e d h = elim (Bool-cases (too_old b s)) [
    | inl old ↦ rw (old, insert) at h
    | inr new ↦ exists-advance_sequence b s t (
        at_slot-set-some (advance_sequence default b s).entry_sequences s t (rw (new, insert) at h)
          d)
  ]

  -- An insertion that is not refused makes its number exist, in a buffer of any size but 0.
  pub exists-insert_self :
      {n : ℕ} (b : SequenceBuffer T) (s : ℕ) (e : T)
      → HasShape n b
      → 0 < n
      → exists (insert default b s e).1 s ≡ (if (insert default b s e).0 then true else exists b s)
  unfolding insert exists
  exists-insert_self b s e h pos = elim (Bool-cases (too_old b s)) [
    | inl old ↦ rw (old, insert)
    | inr new ↦
        let b' = advance_sequence default b s in
        let size : 0 < length b'.entry_sequences =
          omega (arith, (advance_sequence-HasShape default b s h).sequences) in
        rw (new, insert) (at_slot-set_self b'.entry_sequences s size)
  ]
