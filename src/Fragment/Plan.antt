-- ===== src/Fragment/Plan.antt =====
-- crates/bitfold-peer/src/peer/fragmenter.rs: which commands a payload becomes. The commands are
-- given in the order in which the source enqueues them, and `enqueue_all` enqueues them. The
-- fragment size is that of path-MTU discovery, and the sequence number the caller's next one.
pub mod Pieces
pub mod Sizes
pub mod EndToEnd
use bitfold.Prelude.{
  ℕ, zero, suc, ◌+◌, ◌-◌, ◌*◌, ◌/◌, ◌%◌, Bool, true, false, List, [], ◌∷◌, ◌++◌, min, length, take,
  drop, ltb, leb, if◌then◌else◌,
}
use bitfold.Core.Shared.{SharedBytes, from_arc}
use bitfold.Core.Config.{Config, CompressionAlgorithm, no_compression, zlib, lz4}
use bitfold.Command.{
  ProtocolCommand, send_reliable, send_fragment, send_unreliable, send_unreliable_fragment,
}
use bitfold.Queue.{Waiting, enqueue_command}

unfoldable pub compression_overhead : CompressionAlgorithm → ℕ
compression_overhead lz4 = 5
compression_overhead _ = 1

-- The bytes of a datagram with one command, outside the command and its length prefix.
unfoldable pub per_packet_overhead : Config → ℕ
unfolding compression_overhead
per_packet_overhead config =
    1 + compression_overhead config.compression + (if config.use_checksums then 4 else 0)

-- What is left of a datagram for the payload of a command with a header of that size.
unfoldable pub payload_budget : Config → ℕ → ℕ → ℕ
payload_budget config fragment_size header =
    let datagram_cap = min fragment_size config.receive_buffer_max_size in
    datagram_cap - per_packet_overhead config - 2 - header

-- `usize::div_ceil`, at a divisor that is not 0.
abbrev pub div_ceil : ℕ → ℕ → ℕ
div_ceil a b = (a + b - 1) / b

-- `base.slice(start, end - start)` of the whole payload; the range lies inside it.
unfoldable pub fragment_at : List ℕ → ℕ → ℕ → SharedBytes
fragment_at payload fragment_payload fragment_id =
    let start = fragment_id * fragment_payload in
    let end = min ((fragment_id + 1) * fragment_payload) (length payload) in
    record { buffer = payload; start = start; len = end - start }

-- `base.slice(0, fragment_payload.min(base.len()))`
unfoldable pub first_fragment : List ℕ → ℕ → SharedBytes
first_fragment payload fragment_payload = record {
  buffer = payload;
  start = 0;
  len = min fragment_payload (length payload);
}

-- The loop over the fragments' numbers, by the rounds left.
unfoldable pub fragment_commands : ℕ → ℕ → (ℕ → ProtocolCommand) → List ProtocolCommand
fragment_commands zero fragment_id command = []
fragment_commands (suc rounds) fragment_id command =
    command fragment_id ∷ fragment_commands rounds (fragment_id + 1) command

-- The shape that both entry points share: one command if the payload fits, else fragments.
unfoldable pub plan :
    Config
    → ℕ
    → List ℕ
    → ℕ
    → ℕ
    → ProtocolCommand
    → (ℕ → ℕ → SharedBytes → ProtocolCommand)
    → List ProtocolCommand
plan config fragment_size payload whole_header fragment_header whole fragment =
    let max_payload = payload_budget config fragment_size whole_header in
    let fragment_payload = payload_budget config fragment_size fragment_header in
    let total_fragments = div_ceil (length payload) fragment_payload in
    if ltb max_payload 1
    then []
    else if leb (length payload) max_payload
    then whole ∷ []
    else if ltb fragment_payload 1
    then []
    else if ltb 255 total_fragments
    then []
    else if ltb config.max_fragments total_fragments
    then fragment 0 1 (first_fragment payload fragment_payload) ∷ []
    else fragment_commands total_fragments 0
        (λ id. fragment id total_fragments (fragment_at payload fragment_payload id))

unfoldable pub plan_reliable : Config → ℕ → ℕ → ℕ → Bool → List ℕ → List ProtocolCommand
plan_reliable config fragment_size sequence channel_id ordered payload =
    plan config fragment_size payload 7 9
      (send_reliable channel_id sequence ordered (from_arc payload))
      (λ fragment_id fragment_count piece.
        send_fragment channel_id sequence ordered fragment_id fragment_count piece)

unfoldable pub plan_unreliable : Config → ℕ → ℕ → ℕ → List ℕ → List ProtocolCommand
plan_unreliable config fragment_size sequence channel_id payload =
    plan config fragment_size payload 4 8 (send_unreliable channel_id (from_arc payload))
      (λ fragment_id fragment_count piece.
        send_unreliable_fragment channel_id sequence fragment_id fragment_count piece)

unfoldable pub enqueue_all : Config → Waiting → List ProtocolCommand → Waiting
enqueue_all config w [] = w
enqueue_all config w (c ∷ cs) = enqueue_all config (enqueue_command config w c).1 cs

-- The sequence number used, and the queue.
unfoldable pub enqueue_reliable_data : Config → ℕ → Waiting → ℕ → ℕ → List ℕ → Bool → ℕ × Waiting
enqueue_reliable_data config fragment_size w local_sequence channel_id payload ordered = (
  local_sequence,
  enqueue_all config w
      (plan_reliable config fragment_size local_sequence channel_id ordered payload),
)

-- The sequence number used, the next one, and the queue.
unfoldable pub enqueue_unreliable_data : Config → ℕ → Waiting → ℕ → ℕ → List ℕ → ℕ × ℕ × Waiting
enqueue_unreliable_data config fragment_size w next_unreliable channel_id payload = (
  next_unreliable,
  (next_unreliable + 1) % 65536,
  enqueue_all config w (plan_unreliable config fragment_size next_unreliable channel_id payload),
)
