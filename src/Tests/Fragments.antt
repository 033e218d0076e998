-- ===== src/Tests/Fragments.antt =====
-- Fragmentation and reassembly at concrete payloads.
use bitfold.Prelude.{
  ℕ, ◌+◌, ◌<◌, ◌≡◌, refl, true, false, List, [], ◌∷◌, none, some, arith, All, Among, replicate,
  length, take,
}
use bitfold.Prelude.Map.{lookup}
use bitfold.Core.Shared.{as_slice}
use bitfold.Core.Config.{Config, default_config}
use bitfold.Command.{send_fragment}
use bitfold.Fragment.Buffer.{CommandFragmentBuffer, new, reassemble, is_complete}
use bitfold.Fragment.Buffer.Reassembly.{
  joined, add_all, reassemble_arrivals, reassemble_missing, reassemble_foreign,
}
use bitfold.Fragment.Plan.{
  compression_overhead, per_packet_overhead, payload_budget, plan_reliable, fragment_commands,
  fragment_at, first_fragment,
}
use bitfold.Fragment.Plan.EndToEnd.{
  piece_size, piece_count, fragments_reassemble, truncated_delivery,
}

abbrev pieces : ℕ → List ℕ
pieces k = k ∷ (k + 10) ∷ []

reassemble_missing_example :
    (is_complete (add_all pieces (2 ∷ 0 ∷ 2 ∷ []) (new 0 3 true 0)) ≡ false)
    × (reassemble (add_all pieces (2 ∷ 0 ∷ 2 ∷ []) (new 0 3 true 0)) ≡ none)
reassemble_missing_example =
    reassemble_missing pieces 0 3 0 true (2 ∷ 0 ∷ 2 ∷ []) 1 (ground arith) (omega arith)
      (ground arith)

all_three : (k : ℕ) → k < 3 → Among k (2 ∷ 0 ∷ 1 ∷ 2 ∷ [])
all_three k h = omega arith

reassemble_arrivals_example :
    reassemble (add_all pieces (2 ∷ 0 ∷ 1 ∷ 2 ∷ []) (new 0 3 true 0)) ≡ some (joined pieces 0 3)
reassemble_arrivals_example =
    reassemble_arrivals pieces 0 3 0 true (2 ∷ 0 ∷ 1 ∷ 2 ∷ []) (ground arith) all_three

-- Two fragments with the count 2, one of which has the number 4.
abbrev foreign : CommandFragmentBuffer
foreign = record {
  channel_id = 0;
  fragment_count = 2;
  ordered = true;
  fragments = (0, 1 ∷ []) ∷ (4, 2 ∷ []) ∷ [];
  created_at = 0;
}

reassemble_foreign_example : reassemble foreign ≡ none
unfolding lookup
reassemble_foreign_example = reassemble_foreign foreign 4 (2 ∷ []) (ground arith) refl (omega arith)

abbrev partial : List (ℕ × CommandFragmentBuffer)
partial = (3, foreign) ∷ (9, record foreign { created_at = 6_000_000_000 }) ∷ []

abbrev payload : List ℕ
payload = replicate 40 7

-- Fragments of at most ten bytes.
abbrev small_config : Config
small_config = record default_config { receive_buffer_max_size = 27 }

room_of_ten : piece_size small_config 27 ≡ 10
unfolding payload_budget per_packet_overhead compression_overhead
room_of_ten = refl

four_pieces : piece_count small_config 27 payload ≡ 4
unfolding payload_budget per_packet_overhead compression_overhead
four_pieces = refl

too_large : payload_budget small_config 27 7 < length payload
unfolding payload_budget per_packet_overhead compression_overhead
too_large = omega arith

abbrev numbers : List ℕ
numbers = 3 ∷ 0 ∷ 2 ∷ 1 ∷ 3 ∷ []

numbers-lt : All (λ k. k < piece_count small_config 27 payload) numbers
unfolding payload_budget per_packet_overhead compression_overhead
numbers-lt = ground arith

all_four : (k : ℕ) → k < piece_count small_config 27 payload → Among k numbers
unfolding payload_budget per_packet_overhead compression_overhead
all_four k h = omega arith

fragments_reassemble_example :
    (plan_reliable small_config 27 8 1 true payload
      ≡ fragment_commands (piece_count small_config 27 payload) 0 (λ i.
        send_fragment 1 8 true i
          (piece_count small_config 27 payload)
          (fragment_at payload (piece_size small_config 27) i)))
    × (reassemble (
          add_all
            (λ i. as_slice (fragment_at payload (piece_size small_config 27) i))
            numbers
            (new 1 (piece_count small_config 27 payload) true 5))
        ≡ some payload)
fragments_reassemble_example =
    fragments_reassemble small_config 27 8 1 true payload too_large (omega (arith, room_of_ten))
      (omega (arith, four_pieces)) 5 numbers (omega (arith, four_pieces)) numbers-lt all_four

-- The same with at most two fragments.
abbrev tight_config : Config
tight_config = record small_config { max_fragments = 2 }

truncated_delivery_example :
    let first = first_fragment payload (piece_size tight_config 27) in
    (plan_reliable tight_config 27 8 1 true payload ≡ send_fragment 1 8 true 0 1 first ∷ [])
    × (reassemble (add_all (λ i. as_slice first) (0 ∷ []) (new 1 1 true 5))
        ≡ some (take (piece_size tight_config 27) payload))
    × (length (take (piece_size tight_config 27) payload) < length payload)
unfolding payload_budget per_packet_overhead compression_overhead
truncated_delivery_example =
    truncated_delivery tight_config 27 8 1 true payload (omega arith) (omega arith) (omega arith) 5
      (omega arith)
