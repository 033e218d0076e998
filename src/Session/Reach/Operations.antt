-- ===== src/Session/Reach/Operations.antt =====
-- Each operation of a session reaches the peer it leaves.
use bitfold.Prelude.{
  subst, ℕ, refl, inl, inr, Bool, true, false, List, [], ◌∷◌, Option, none, some, length, ◌%◌, ◌^◌,
  if◌then◌else◌, Bool-cases, Option-cases,
}
use bitfold.Core.Float.{Float}
use bitfold.Core.Error.{done, failed}
use bitfold.Command.{ProtocolCommand}
use bitfold.Codec.Bytes.{ByteOrder, Result-cases}
use bitfold.Codec.Compression.{Compressors}
use bitfold.Throttle.{can_receive_within_bandwidth, record_bytes_received}
use bitfold.Packet.{Packet, PacketType, into_iter}
use bitfold.Peer.{Peer, record_send}
use bitfold.Peer.State.{is_established}
use bitfold.Peer.Parts.{record_packet_received, record_data_received, handle_pmtu}
use bitfold.Peer.Receive.{Processed}
use bitfold.Peer.Process.{
  Received, behind, continue_with, unpack, process_commands, process_command_packet,
}
use bitfold.Peer.Kept.{Stays, Stays-refl, Stays-trans, same-Stays, Leaves}
use bitfold.Peer.Handshake.{Steps, Stays-Steps, process_command-Steps, Every}
use bitfold.Peer.Handshake.Local.{record_send-Steps, record_recv-Steps}
use bitfold.Session.{Action, enqueue_packet, update_window, keepalive}
use bitfold.Session.Run.{
  handle_received, beside, with_pmtu, process_packet, flush_queue, process_event, update,
}
use bitfold.Session.Kept.{Ends, enqueue_packet-Stays, keepalive-Stays, handle_pmtu-Stays}
use bitfold.Session.Kept.Sending.{Ends-trans, flush_queue-Stays}
use bitfold.Session.Reach.{Reaches, Reaches-trans, Steps-Reaches}

module _ {float : Float} where
  Stays-Reaches : {p q : Peer float} → Stays p q → Reaches p q
  Stays-Reaches s = Steps-Reaches (Stays-Steps s)

  behind-Ends :
      (p : Peer float) (packets : List (Packet × PacketType)) (r : Received float)
      → Ends (Reaches p) r
      → Ends (Reaches p) (behind packets r)
  behind-Ends p packets none h = tt
  behind-Ends p packets (some (failed e, q)) h = h
  behind-Ends p packets (some (done qs, q)) h = h

  Ends-Reaches :
      {A : Type 0} (p q : Peer float) (r : Option (A × Peer float))
      → Reaches p q
      → Ends (Reaches q) r
      → Ends (Reaches p) r
  Ends-Reaches p q none s h = tt
  Ends-Reaches p q (some (a, q')) s h = Reaches-trans s h

  Ends-Stays :
      {A : Type 0} (p : Peer float) (r : Option (A × Peer float))
      → Ends (Stays p) r
      → Ends (Reaches p) r
  Ends-Stays p none h = tt
  Ends-Stays p (some (a, q)) h = Stays-Reaches h

  continue_with-Ends :
      (p : Peer float) (r : Processed float) (rest : Peer float → Received float)
      → Leaves (Steps p) r
      → ((q : Peer float) → Ends (Reaches q) (rest q))
      → Ends (Reaches p) (continue_with r rest)
  continue_with-Ends p none rest h k = tt
  continue_with-Ends p (some (failed e, q)) rest h k = Steps-Reaches h
  continue_with-Ends p (some (done packets, q)) rest h k =
      behind-Ends p (into_iter packets) (rest q) (Ends-Reaches p q (rest q) (Steps-Reaches h) (k q))

  process_commands-Ends :
      (p : Peer float) (cs : List ProtocolCommand) (time random : ℕ)
      → Ends (Reaches p) (process_commands p cs time random)
  unfolding process_commands
  process_commands-Ends p [] time random = Stays-Reaches (Stays-refl p)
  process_commands-Ends p (c ∷ cs) time random =
      continue_with-Ends p _ _ (process_command-Steps p c time random)
        (λ q. process_commands-Ends q cs time random)

  handle_received-Ends :
      (p : Peer float) (r : Received float)
      → Ends (Reaches p) r
      → Ends (Reaches p) (handle_received r)
  handle_received-Ends p none h = tt
  handle_received-Ends p (some (failed e, q)) h = h
  handle_received-Ends p (some (done packets, q)) h =
      Reaches-trans h (Steps-Reaches (record_recv-Steps q))

module _ {float : Float} ⦃bytes : ByteOrder⦄ (crc32 : List ℕ → ℕ) (c : Compressors) where
  pub process_command_packet-Ends :
      (p : Peer float) (payload : List ℕ) (time random : ℕ)
      → Ends (Reaches p) (process_command_packet crc32 c p payload time random)
  unfolding process_command_packet record_packet_received record_data_received
  process_command_packet-Ends p payload time random =
      let p' = record_data_received p (length payload) in
      elim (Result-cases (unpack crc32 c p'.config payload)) [
        | inl (e, refused) ↦
            rw (process_command_packet, refused)
              (Stays-Reaches (same-Stays refl refl refl refl refl))
        | inr (commands, e) ↦
            rw (process_command_packet, e)
              (Ends-Reaches p (record_packet_received p') _
                (Stays-Reaches (same-Stays refl refl refl refl refl))
                (process_commands-Ends (record_packet_received p') commands time random))
      ]

  pub process_packet-Ends :
      (p : Peer float) (payload : List ℕ) (time random : ℕ)
      → Ends (Reaches p) (process_packet crc32 c p payload time random)
  unfolding process_packet
  process_packet-Ends p [] time random = Stays-Reaches (Stays-refl p)
  process_packet-Ends p (b ∷ payload) time random =
      let p' = update_window p time in
      let counted : Peer float = record p' {
        bandwidth_throttle =
            record_bytes_received p'.bandwidth_throttle (length (b ∷ payload) % 2 ^ 32);
      } in
      elim (Bool-cases (can_receive_within_bandwidth p'.bandwidth_throttle)) [
        | inr over ↦ rw (process_packet, over) (Stays-Reaches (same-Stays refl refl refl refl refl))
        | inl within ↦
            rw (process_packet, within)
              (handle_received-Ends p _ (
                Ends-Reaches p counted _ (Stays-Reaches (same-Stays refl refl refl refl refl))
                  (process_command_packet-Ends counted (b ∷ payload) time random)))
      ]

  -- Behind `record_send`, only the queue changes.
  pub process_event-Stays :
      (p : Peer float) (event : Packet)
      → Ends (Stays (record_send p).1) (process_event crc32 c p event)
  unfolding process_event
  process_event-Stays p event =
      let q = (record_send p).1 in
      let o = enqueue_packet q event.delivery event.ordering event.channel_id event.payload in
      let stays =
        enqueue_packet-Stays q event.delivery event.ordering event.channel_id event.payload in
      elim (Option-cases o) [
        | inl panics ↦ rw (process_event, panics) tt
        | inr (r, e) ↦
            let queued = subst (Every (Stays q)) e stays in
            elim (Option-cases (flush_queue crc32 c r)) [
              | inl stuck ↦ rw (process_event, e, stuck) tt
              | inr ((actions, s), f) ↦
                  rw (process_event, e, f)
                    (Stays-trans queued (subst (Ends (Stays r)) f (flush_queue-Stays crc32 c r)))
            ]
      ]

  pub process_event-Ends :
      (p : Peer float) (event : Packet) → Ends (Reaches p) (process_event crc32 c p event)
  process_event-Ends p event =
      Ends-Reaches p (record_send p).1 _ (Steps-Reaches (record_send-Steps p))
        (Ends-Stays (record_send p).1 (process_event crc32 c p event) (process_event-Stays p event))

  flushed-Ends :
      (p : Peer float) (time token : ℕ) (fill : ℕ → List ℕ) (r : Option (List Action × Peer float))
      → Ends (Stays p) r
      → Ends (Stays p) (with_pmtu r time token fill)
  flushed-Ends p time token fill none h = tt
  flushed-Ends p time token fill (some (actions, q)) h =
      probed (handle_pmtu q time token fill) (handle_pmtu-Stays q time token fill)
    where
      probed : (o : Option (Peer float)) → Every (Stays q) o → Ends (Stays p) (beside actions o)
      probed none k = tt
      probed (some r) k = Stays-trans h k

  pub update-Ends :
      (p : Peer float) (time elapsed token : ℕ) (fill : ℕ → List ℕ)
      → Ends (Stays p) (update crc32 c p time elapsed token fill)
  unfolding update
  update-Ends p time elapsed token fill =
      let p' = update_window p time in
      let windowed : Stays p p' = same-Stays refl refl refl refl refl in
      let alive = keepalive-Stays p'.config.heartbeat_interval p' time elapsed in
      let q =
        if is_established p'.state
        then keepalive p'.config.heartbeat_interval p' time elapsed
        else p' in
      Ends-trans p q _ (Stays-trans windowed (either (is_established p'.state) alive))
        (flushed-Ends q time token fill _ (flush_queue-Stays crc32 c q))
    where
      either : {a b : Peer float} (t : Bool) → Stays a b → Stays a (if t then b else a)
      either {a} true s = s
      either {a} false s = Stays-refl a
