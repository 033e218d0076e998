-- ===== src/Fragment/Buffer.antt =====
-- crates/bitfold-peer/src/fragment_buffer.rs: the reassembly of a packet from its fragments.
pub mod Reassembly
pub mod Cleanup
use bitfold.Prelude.{
  ℕ, zero, suc, ◌+◌, Bool, List, [], ◌∷◌, ◌++◌, Option, none, some, length, ltb, ◌==◌,
  if◌then◌else◌,
}
use bitfold.Prelude.Map.{lookup, insert, remove}
use bitfold.Core.Time.{duration_since, from_secs}

pub record CommandFragmentBuffer : Type 0 where
  pub channel_id : ℕ
  pub fragment_count : ℕ
  pub ordered : Bool
  pub fragments : List (ℕ × List ℕ)
  pub created_at : ℕ

unfoldable pub new : ℕ → ℕ → Bool → ℕ → CommandFragmentBuffer
new channel_id fragment_count ordered created_at = record {
  channel_id = channel_id;
  fragment_count = fragment_count;
  ordered = ordered;
  fragments = [];
  created_at = created_at;
}

unfoldable pub add_fragment : CommandFragmentBuffer → ℕ → List ℕ → CommandFragmentBuffer
add_fragment b fragment_id piece = record b { fragments = insert fragment_id piece b.fragments }

unfoldable pub is_complete : CommandFragmentBuffer → Bool
is_complete b = length b.fragments == b.fragment_count

-- The loop over the fragments' numbers, by the rounds left.
unfoldable pub collect : ℕ → ℕ → List (ℕ × List ℕ) → List ℕ → Option (List ℕ)
collect zero fragment_id fragments result = some result
collect (suc rounds) fragment_id fragments result = elim (lookup fragment_id fragments) [
  | none ↦ none
  | some piece ↦ collect rounds (fragment_id + 1) (remove fragment_id fragments) (result ++ piece)
]

unfoldable pub reassemble : CommandFragmentBuffer → Option (List ℕ)
reassemble b = if is_complete b then collect b.fragment_count 0 b.fragments [] else none

abbrev pub fragment_timeout : ℕ
fragment_timeout = from_secs 5

unfoldable pub is_stale : ℕ → CommandFragmentBuffer → Bool
is_stale time b = ltb fragment_timeout (duration_since time b.created_at)

-- The numbers of the buffers that have timed out, and the map without them.
unfoldable pub stale_sequences : ℕ → List (ℕ × CommandFragmentBuffer) → List ℕ
stale_sequences time [] = []
stale_sequences time ((seq, b) ∷ m) =
    let rest = stale_sequences time m in if is_stale time b then seq ∷ rest else rest

unfoldable pub remove_each :
    List ℕ → List (ℕ × CommandFragmentBuffer) → List (ℕ × CommandFragmentBuffer)
remove_each [] m = m
remove_each (seq ∷ seqs) m = remove_each seqs (remove seq m)

unfoldable pub cleanup_stale_fragments :
    List (ℕ × CommandFragmentBuffer) → ℕ → List (ℕ × CommandFragmentBuffer)
cleanup_stale_fragments m time = remove_each (stale_sequences time m) m
