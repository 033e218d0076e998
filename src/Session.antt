-- ===== src/Session.antt =====
-- crates/bitfold-host/src/peer_session.rs: a peer as a session of the manager, and the actions of
-- crates/bitfold-host/src/event_types.rs that it asks for.
pub mod Run
pub mod Flush
pub mod Answered
pub mod Drain
pub mod Kept
pub mod Reach
pub mod Opening
pub mod Quiet
use bitfold.Prelude.{
  ℕ, zero, suc, ◌+◌, ◌-◌, ◌%◌, ◌^◌, Bool, true, false, not, ◌&&◌, ◌||◌, List, [], ◌∷◌, ◌++◌, map,
  Option, none, some, length, ltb, leb, ◌==◌, if◌then◌else◌, min, max,
}
use bitfold.Core.Config.{Config, CompressionAlgorithm, no_compression, zlib, lz4}
use bitfold.Core.Float.{Float}
use bitfold.Core.Time.{duration_since}
use bitfold.Core.Error.{Outcome, done, failed}
use bitfold.Core.Shared.{SharedBytes, from_arc, slice}
use bitfold.Command.{ProtocolCommand, send_unsequenced}
use bitfold.Codec.Bytes.{ByteOrder, Result, ok, err}
use bitfold.Codec.Compression.{Compressors}
use bitfold.Acknowledgment.{packets_in_flight}
use bitfold.Fragment.Plan.{enqueue_reliable_data, enqueue_unreliable_data}
use bitfold.Throttle.{
  update_bandwidth_window, can_send_within_bandwidth, can_receive_within_bandwidth,
  record_bytes_sent, record_bytes_received,
}
use bitfold.Unsequenced.{next_outgoing_group}
use bitfold.Packet.{
  Packet, PacketType, DeliveryGuarantee, unreliable, reliable, OrderingGuarantee, unordered,
  sequenced, ordered, unsequenced,
}
use bitfold.Peer.{
  Peer, enqueue_command_peer, record_send, record_recv, has_queued_commands, enqueue_ping_command,
}
use bitfold.Peer.Parts.{handle_pmtu}
use bitfold.Peer.State.{is_established, is_zombie}
use bitfold.Peer.Process.{process_command_packet}
use bitfold.Peer.Encode.{encode_queued_commands_bounded}

pub data SocketEvent : Type 0 where
  packet_event : Packet → SocketEvent
  connect_event timeout_event disconnect_event : (address : ℕ) → SocketEvent

pub data Action : Type 0 where
  send_action : List ℕ → Action
  emit_action : SocketEvent → Action

abbrev pub emit_if : Bool → SocketEvent → List Action
emit_if true event = emit_action event ∷ []
emit_if false event = []

-- The packets of a datagram as events.
abbrev pub packet_events : List (Packet × PacketType) → List Action
packet_events [] = []
packet_events ((p, t) ∷ ps) = emit_action (packet_event p) ∷ packet_events ps

unfoldable pub unsequenced_compression_overhead : CompressionAlgorithm → ℕ
unsequenced_compression_overhead lz4 = 5
unsequenced_compression_overhead _ = 1

-- `max_payload_unseq`
unfoldable pub max_payload_unsequenced : Config → ℕ → ℕ
unfolding unsequenced_compression_overhead
max_payload_unsequenced config fragment_size =
    let datagram_cap = min fragment_size config.receive_buffer_max_size in
    let checksum_overhead = if config.use_checksums then 4 else 0 in
    let per_packet_overhead =
      1 + unsequenced_compression_overhead config.compression + checksum_overhead in
    max 1 (datagram_cap - per_packet_overhead - 2 - (1 + 1 + 2 + 2))

abbrev pub is_unordered : OrderingGuarantee → Bool
is_unordered unordered = true
is_unordered _ = false

module _ {float : Float} where
  unfoldable pub should_drop : Peer float → ℕ → Bool × List Action
  should_drop p time =
      let drops =
        ltb p.config.max_packets_in_flight (packets_in_flight p.acknowledge_handler)
        || leb p.config.idle_connection_timeout (duration_since time p.last_heard) in
      if is_zombie p.state then (true, emit_action (disconnect_event p.remote_address) ∷ []) else (
        drops,
        if drops
            then emit_action (timeout_event p.remote_address)
              ∷ emit_if (is_established p.state) (disconnect_event p.remote_address)
            else [],
      )

  abbrev pub update_window : Peer float → ℕ → Peer float
  update_window p time = record p {
    bandwidth_throttle = (update_bandwidth_window p.bandwidth_throttle time).1;
  }

  -- One chunk of an unsequenced packet.
  unfoldable pub enqueue_chunk : Peer float → ℕ → SharedBytes → Peer float
  enqueue_chunk p channel_id chunk =
      let (group, u) = next_outgoing_group p.unsequenced_state in
      (enqueue_command_peer (record p { unsequenced_state = u })
        (send_unsequenced channel_id group chunk)).1

  -- The `while` loop over the chunks, on fuel; `none` is the panic of `slice` or the end of the fuel.
  unfoldable pub enqueue_chunks :
      (fuel : ℕ)
      → Peer float
      → (channel_id chunk_size offset : ℕ) → SharedBytes
      → Option (Peer float)
  enqueue_chunks zero p channel_id chunk_size offset base = none
  enqueue_chunks (suc fuel) p channel_id chunk_size offset base =
      let len = min chunk_size (base.len - offset) in
      if ltb offset base.len
      then elim (slice base offset len) [
        | none ↦ none
        | some chunk ↦
            enqueue_chunks fuel (enqueue_chunk p channel_id chunk) channel_id chunk_size
              (offset + len) base
      ]
      else some p

  -- Each round takes at least one byte.
  unfoldable pub enqueue_unsequenced : Peer float → ℕ → List ℕ → Option (Peer float)
  enqueue_unsequenced p channel_id payload =
      enqueue_chunks (length payload + 1) p channel_id
        (max_payload_unsequenced p.config p.pmtu.fragment_size) 0 (from_arc payload)

  -- The match over the guarantees of `process_event`.
  unfoldable pub enqueue_packet :
      Peer float
      → DeliveryGuarantee
      → OrderingGuarantee
      → (channel_id : ℕ) → List ℕ
      → Option (Peer float)
  enqueue_packet p reliable ordering channel_id payload = some (record p {
    waiting =
        (enqueue_reliable_data p.config p.pmtu.fragment_size p.waiting
          p.acknowledge_handler.sequence_number channel_id payload (not (is_unordered ordering))).1;
  })
  enqueue_packet p unreliable unsequenced channel_id payload =
      enqueue_unsequenced p channel_id payload
  enqueue_packet p unreliable _ channel_id payload =
      let (sequence, next_sequence, w) =
        enqueue_unreliable_data p.config p.pmtu.fragment_size p.waiting p.next_unreliable_sequence
          channel_id payload in
      some (record p { next_unreliable_sequence = next_sequence; waiting = w })

  abbrev pub keepalive : Option ℕ → Peer float → (time elapsed : ℕ) → Peer float
  keepalive none p time elapsed = p
  keepalive (some heartbeat_interval) p time elapsed =
      if leb heartbeat_interval (duration_since time p.last_sent)
        && leb heartbeat_interval (duration_since time p.last_heard)
      then enqueue_ping_command p elapsed
      else p
