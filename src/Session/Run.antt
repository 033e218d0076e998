-- ===== src/Session/Run.antt =====
-- crates/bitfold-host/src/peer_session.rs: the operations of a session that send and receive.
use bitfold.Prelude.{
  ℕ, zero, suc, ◌+◌, ◌%◌, ◌^◌, not, ◌&&◌, List, [], ◌∷◌, ◌++◌, Option, none, some, length,
  if◌then◌else◌, min,
}
use bitfold.Core.Float.{Float}
use bitfold.Core.Error.{done, failed}
use bitfold.Codec.Bytes.{ByteOrder, ok, err}
use bitfold.Codec.Compression.{Compressors}
use bitfold.Throttle.{
  can_send_within_bandwidth, can_receive_within_bandwidth, record_bytes_sent, record_bytes_received,
}
use bitfold.Packet.{Packet}
use bitfold.Peer.{Peer, record_send, record_recv, has_queued_commands}
use bitfold.Peer.Parts.{handle_pmtu}
use bitfold.Peer.State.{is_established}
use bitfold.Peer.Process.{Received, process_command_packet}
use bitfold.Peer.Encode.{encode_queued_commands_bounded}
use bitfold.Session.{
  connect_event, Action, send_action, emit_if, packet_events, update_window, enqueue_packet,
  keepalive,
}

module _ {float : Float} where
  abbrev pub sends_first :
      List ℕ → Option (List Action × Peer float) → Option (List Action × Peer float)
  sends_first out none = none
  sends_first out (some (actions, p)) = some (send_action out ∷ actions, p)

  -- The match over the result; an error is logged.
  abbrev pub handle_received : Received float → Option (List Action × Peer float)
  handle_received none = none
  handle_received (some (failed e, p)) = some ([], p)
  handle_received (some (done packets, p)) =
      let (established, q) = record_recv p in
      some (emit_if established (connect_event q.remote_address) ++ packet_events packets, q)

  abbrev pub beside : List Action → Option (Peer float) → Option (List Action × Peer float)
  beside actions none = none
  beside actions (some p) = some (actions, p)

  -- `self.handle_pmtu(time)` behind the flush.
  abbrev pub with_pmtu :
      Option (List Action × Peer float)
      → (time token : ℕ) → (ℕ → List ℕ)
      → Option (List Action × Peer float)
  with_pmtu none time token fill = none
  with_pmtu (some (actions, p)) time token fill = beside actions (handle_pmtu p time token fill)

module _ {float : Float} ⦃bytes : ByteOrder⦄ (crc32 : List ℕ → ℕ) (c : Compressors) where
  -- `none` is a panic.
  unfoldable pub process_packet :
      Peer float → List ℕ → (time random : ℕ) → Option (List Action × Peer float)
  process_packet p [] time random = some ([], p)
  process_packet p (b ∷ payload) time random =
      let p' = update_window p time in
      let counted : Peer float = record p' {
        bandwidth_throttle =
            record_bytes_received p'.bandwidth_throttle (length (b ∷ payload) % 2 ^ 32);
      } in
      if not (can_receive_within_bandwidth p'.bandwidth_throttle)
      then some ([], p')
      else handle_received (process_command_packet crc32 c counted (b ∷ payload) time random)

  -- The `while` loop that flushes the queue, on fuel; `none` when the fuel runs out.
  unfoldable pub flush : (fuel : ℕ) → Peer float → Option (List Action × Peer float)
  flush zero p = none
  flush (suc fuel) p =
      let cap = min p.pmtu.fragment_size p.config.receive_buffer_max_size in
      let (result, q) = encode_queued_commands_bounded crc32 c p cap in
      if has_queued_commands p && can_send_within_bandwidth p.bandwidth_throttle
      then elim result [
        | ok (some out) ↦ sends_first out (
            flush fuel (record q {
              bandwidth_throttle = record_bytes_sent q.bandwidth_throttle (length out % 2 ^ 32);
            }))
        | ok none ↦ some ([], q)
        | err e ↦ some ([], q)
      ]
      else some ([], p)

  -- Each datagram takes at least one command out of the queue.
  unfoldable pub flush_queue : Peer float → Option (List Action × Peer float)
  flush_queue p = flush (length p.waiting.command_queue.commands + 1) p

  unfoldable pub process_event : Peer float → Packet → Option (List Action × Peer float)
  process_event p event =
      let (established, p') = record_send p in
      elim (enqueue_packet p' event.delivery event.ordering event.channel_id event.payload) [
        | none ↦ none
        | some q ↦ elim (flush_queue q) [
          | none ↦ none
          | some (actions, r) ↦
              some (emit_if established (connect_event p.remote_address) ++ actions, r)
        ]
      ]

  -- `elapsed` is `time.elapsed().as_millis() as u32`, and the last two arguments make the probe.
  unfoldable pub update :
      Peer float → (time elapsed token : ℕ) → (ℕ → List ℕ) → Option (List Action × Peer float)
  update p time elapsed token fill =
      let p' = update_window p time in
      let q =
        if is_established p'.state
        then keepalive p'.config.heartbeat_interval p' time elapsed
        else p' in
      with_pmtu (flush_queue q) time token fill
