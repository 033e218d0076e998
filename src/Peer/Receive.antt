-- ===== src/Peer/Receive.antt =====
-- crates/bitfold-peer/src/peer/command_processor.rs: what a peer does with the commands that carry
-- data, and with acknowledgments.
use bitfold.Prelude.{ℕ, Bool, false, List, [], ◌∷◌, map, Option, none, some, if◌then◌else◌}
use bitfold.Prelude.Map.{lookup, insert, remove}
use bitfold.Core.Float.{Float}
use bitfold.Core.Error.{Outcome, done}
use bitfold.Core.Shared.{SharedBytes, from_arc, from_vec, into_full_arc, as_slice}
use bitfold.Channel.{ChannelState, new as new_channel, process_ordered, process_sequenced}
use bitfold.Fragment.Buffer.{
  CommandFragmentBuffer, new as new_buffer, add_fragment, is_complete, reassemble,
}
use bitfold.Unsequenced.{is_duplicate, mark_received}
use bitfold.Acknowledgment.{process_incoming}
use bitfold.Packet.{
  Packet, new, DeliveryGuarantee, unreliable, reliable, OrderingGuarantee, unordered, sequenced,
  ordered, unsequenced, packet, IncomingPackets, zero_packets, one_packet, many_packets,
}
use bitfold.Peer.{Peer, enqueue_ack_command}

-- `data.clone().into_full_arc().unwrap_or_else(|| data.as_slice().to_vec())`
abbrev or_slice : Option (List ℕ) → SharedBytes → List ℕ
or_slice none d = as_slice d
or_slice (some full) d = full

unfoldable pub payload_of : SharedBytes → List ℕ
payload_of d = or_slice (into_full_arc d) d

-- `entry(key).or_insert_with(...)`
abbrev or_new : {A : Type 0} → Option A → A → A
or_new none a = a
or_new (some b) a = b

-- What a command yields, and the peer; `none` is a panic.
abbrev pub Processed : Float → Type 0
Processed float = Option (Outcome IncomingPackets × Peer float)

module _ {float : Float} where
  abbrev pub yields : IncomingPackets → Peer float → Processed float
  yields packets p = some (done packets, p)

  -- `Packet::new(self.remote_address, ...)`
  abbrev pub received_as : Peer float → ℕ → DeliveryGuarantee → OrderingGuarantee → List ℕ → Packet
  received_as p channel_id delivery ordering payload =
      new p.remote_address payload delivery ordering channel_id

  -- One packet of the type `Packet`.
  abbrev pub deliver :
      Peer float → ℕ → DeliveryGuarantee → OrderingGuarantee → List ℕ → IncomingPackets
  deliver p channel_id delivery ordering payload =
      one_packet (received_as p channel_id delivery ordering payload) packet

  abbrev pub channel_state : Peer float → ℕ → ChannelState
  channel_state p channel_id = or_new (lookup channel_id p.channel_states) new_channel

  abbrev pub with_channel : Peer float → ℕ → ChannelState → Peer float
  with_channel p channel_id c = record p { channel_states = insert channel_id c p.channel_states }

  unfoldable pub process_acknowledge :
      Peer float → (sequence received_mask time : ℕ) → Processed float
  process_acknowledge p sequence received_mask time = yields zero_packets (record p {
    acknowledge_handler =
        process_incoming p.acknowledge_handler sequence sequence received_mask time;
  })

  -- `channel_state.process_ordered(...)` and the packets made of what it gives.
  unfoldable pub deliver_ordered :
      Peer float → (channel_id sequence : ℕ) → SharedBytes → Processed float
  deliver_ordered p channel_id sequence payload =
      elim (process_ordered (channel_state p channel_id) sequence (from_arc (payload_of payload))) [
        | none ↦ none
        | some (ready, c) ↦
            yields
              (many_packets (
                map (λ d. (received_as p channel_id reliable (ordered none) (payload_of d), packet))
                  ready))
              (with_channel p channel_id c)
      ]

  unfoldable pub process_send_reliable :
      Peer float → (channel_id sequence : ℕ) → Bool → SharedBytes → ℕ → Processed float
  process_send_reliable p channel_id sequence is_ordered payload time =
      let h = process_incoming p.acknowledge_handler sequence sequence 0 time in
      let p' = enqueue_ack_command (record p { acknowledge_handler = h }) none in
      if is_ordered
      then deliver_ordered p' channel_id sequence payload
      else yields (deliver p' channel_id reliable unordered (payload_of payload)) p'

  abbrev sequenced_packets : Peer float → ℕ → Option SharedBytes → IncomingPackets
  sequenced_packets p channel_id none = zero_packets
  sequenced_packets p channel_id (some d) =
      deliver p channel_id unreliable (sequenced none) (payload_of d)

  unfoldable pub process_send_unreliable_sequenced :
      Peer float → (channel_id sequence : ℕ) → SharedBytes → Processed float
  process_send_unreliable_sequenced p channel_id sequence payload =
      let (accepted, c) =
        process_sequenced (channel_state p channel_id) sequence (from_arc (payload_of payload)) in
      yields (sequenced_packets p channel_id accepted) (with_channel p channel_id c)

  unfoldable pub process_send_unsequenced :
      Peer float → (channel_id unsequenced_group : ℕ) → SharedBytes → Processed float
  process_send_unsequenced p channel_id unsequenced_group payload =
      if is_duplicate p.unsequenced_state unsequenced_group
      then yields zero_packets p
      else yields (deliver p channel_id unreliable unsequenced (payload_of payload))
          (record p { unsequenced_state = mark_received p.unsequenced_state unsequenced_group })

  -- The fragment buffer of a sequence number, with the fragment added.
  unfoldable pub collected :
      Peer float
      → (channel_id sequence : ℕ) → Bool
      → (fragment_id fragment_count : ℕ) → SharedBytes
      → ℕ
      → CommandFragmentBuffer
  collected p channel_id sequence is_ordered fragment_id fragment_count payload time =
      add_fragment
        (or_new (lookup sequence p.command_fragments)
          (new_buffer channel_id fragment_count is_ordered time))
        fragment_id (payload_of payload)

  -- The three ways in which the source returns what is ready.
  unfoldable pub ready_packets : Peer float → ℕ → List SharedBytes → IncomingPackets
  ready_packets p channel_id [] = zero_packets
  ready_packets p channel_id (d ∷ []) = deliver p channel_id reliable unordered (payload_of d)
  ready_packets p channel_id (d ∷ e ∷ ds) =
      many_packets (
        map (λ x. (received_as p channel_id reliable unordered (payload_of x), packet))
          (d ∷ e ∷ ds))

  -- What follows when reassembly has succeeded.
  unfoldable pub deliver_reassembled :
      Peer float → CommandFragmentBuffer → ℕ → List ℕ → Processed float
  deliver_reassembled p buffer sequence reassembled =
      let p' = enqueue_ack_command p none in
      if buffer.ordered
      then elim (process_ordered (channel_state p' buffer.channel_id) sequence
          (from_vec reassembled)) [
            | none ↦ none
            | some (ready, c) ↦
                yields (ready_packets p' buffer.channel_id ready)
                  (with_channel p' buffer.channel_id c)
          ]
      else yields (deliver p' buffer.channel_id reliable unordered reassembled) p'

  unfoldable pub process_send_fragment :
      Peer float
      → (channel_id sequence : ℕ) → Bool
      → (fragment_id fragment_count : ℕ) → SharedBytes
      → ℕ
      → Processed float
  process_send_fragment p channel_id sequence is_ordered fragment_id fragment_count payload time =
      let h = process_incoming p.acknowledge_handler sequence sequence 0 time in
      let buffer =
        collected p channel_id sequence is_ordered fragment_id fragment_count payload time in
      let waits : Peer float = record p {
        acknowledge_handler = h;
        command_fragments = insert sequence buffer p.command_fragments;
      } in
      let taken : Peer float = record p {
        acknowledge_handler = h;
        command_fragments = remove sequence (insert sequence buffer p.command_fragments);
      } in
      if is_complete buffer
      then elim (reassemble buffer) [
        | none ↦ yields zero_packets taken
        | some reassembled ↦ deliver_reassembled taken buffer sequence reassembled
      ]
      else yields zero_packets waits

  unfoldable pub process_send_unreliable_fragment :
      Peer float
      → (channel_id sequence fragment_id fragment_count : ℕ) → SharedBytes
      → ℕ
      → Processed float
  process_send_unreliable_fragment p channel_id sequence fragment_id fragment_count payload time =
      let buffer = collected p channel_id sequence false fragment_id fragment_count payload time in
      let waits : Peer float = record p {
        command_fragments = insert sequence buffer p.command_fragments;
      } in
      let taken : Peer float = record p {
        command_fragments = remove sequence (insert sequence buffer p.command_fragments);
      } in
      if is_complete buffer
      then elim (reassemble buffer) [
        | none ↦ yields zero_packets taken
        | some reassembled ↦
            yields (deliver taken buffer.channel_id unreliable unordered reassembled) taken
      ]
      else yields zero_packets waits
