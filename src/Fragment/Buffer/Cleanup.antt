-- ===== src/Fragment/Buffer/Cleanup.antt =====
-- `cleanup_stale_fragments`.
use bitfold.Prelude.{
  ℕ, ◌≡◌, refl, Bool, true, false, List, [], ◌∷◌, Option, none, some, arith, ◌==◌, if◌then◌else◌,
}
use bitfold.Prelude.Map.{lookup, remove, lookup-remove}
use bitfold.Prelude.Map.Distinct.{Distinct}
use bitfold.Fragment.Buffer.{
  CommandFragmentBuffer, is_stale, stale_sequences, remove_each, cleanup_stale_fragments,
}

abbrev among : ℕ → List ℕ → Bool
among k [] = false
among k (j ∷ js) = if j == k then true else among k js

-- What a lookup finds, unless it has timed out.
abbrev pub fresh : ℕ → Option CommandFragmentBuffer → Option CommandFragmentBuffer
fresh time none = none
fresh time (some b) = if is_stale time b then none else some b

lookup-remove_each :
    (k : ℕ) (ks : List ℕ) (m : List (ℕ × CommandFragmentBuffer))
    → lookup k (remove_each ks m) ≡ (if among k ks then none else lookup k m)
unfolding remove_each
lookup-remove_each k [] m = refl
lookup-remove_each k (j ∷ ks) m =
    ground (arith, lookup-remove_each k ks (remove j m), lookup-remove j k m)

abbrev stale_at : ℕ → Option CommandFragmentBuffer → Bool
stale_at time none = false
stale_at time (some b) = is_stale time b

among-stale_sequences :
    (k time : ℕ) (m : List (ℕ × CommandFragmentBuffer))
    → Distinct m
    → among k (stale_sequences time m) ≡ stale_at time (lookup k m)
unfolding stale_sequences lookup
among-stale_sequences k time [] d = refl
among-stale_sequences k time ((j, b) ∷ m) d = ground (arith, among-stale_sequences k time m d.1)

-- The clean-up removes exactly the buffers that are older than the timeout, and keeps every other
-- one as it is.
pub lookup-cleanup_stale_fragments :
    (k time : ℕ) (m : List (ℕ × CommandFragmentBuffer))
    → Distinct m
    → lookup k (cleanup_stale_fragments m time) ≡ fresh time (lookup k m)
unfolding cleanup_stale_fragments
lookup-cleanup_stale_fragments k time m d =
    ground
      (arith, lookup-remove_each k (stale_sequences time m) m, among-stale_sequences k time m d)
