-- ===== src/Session/Quiet/Runs.antt =====
-- Runs in which no command of the handshake is heard.
use bitfold.Prelude.{
  ℕ, ◌≡◌, refl, inl, inr, Bool, true, false, not, List, [], ◌∷◌, some, none, length, All,
  Bool-cases, if◌then◌else◌, subst, Option,
}
use bitfold.Core.Float.{Float}
use bitfold.Core.Config.{Config}
use bitfold.Core.Error.{done, failed}
use bitfold.Command.{ProtocolCommand}
use bitfold.Codec.Bytes.{ByteOrder, Result-cases, ok}
use bitfold.Codec.Compression.{Compressors}
use bitfold.Throttle.{can_receive_within_bandwidth}
use bitfold.Peer.{
  Peer, new, push_command, initiate_connect, sent_state, record_send, received_state, record_recv,
  disconnect,
}
use bitfold.Peer.State.{
  PeerState, idle, connecting, acknowledging_connect, connection_succeeded, connected,
  disconnecting, zombie, is_idle, is_established, is_disconnecting,
}
use bitfold.Peer.Parts.{record_packet_received, record_data_received}
use bitfold.Peer.Process.{Received, unpack, process_command_packet}
use bitfold.Peer.Kept.{Stays}
use bitfold.Session.{update_window}
use bitfold.Session.Run.{handle_received, process_packet, process_event, update}
use bitfold.Session.Kept.{Ends}
use bitfold.Session.Reach.Operations.{process_event-Stays, update-Ends}
use bitfold.Session.Reach.Runs.{Run, starts, receives, sends, updates, disconnects}
use bitfold.Session.Quiet.{
  opens, is_unheard, Unheard, unheard-is_established, Stays-Unheard, same, process_commands-Unheard,
}

module _ ⦃bytes : ByteOrder⦄ (crc32 : List ℕ → ℕ) (c : Compressors) where
  -- The datagram, if it can be unpacked, has no command of the handshake.
  abbrev pub IsQuiet : Config → List ℕ → Type 0
  IsQuiet config payload =
      (cs : List ProtocolCommand)
      → unpack crc32 c config payload ≡ ok cs
      → All (λ command. opens command ≡ false) cs

module _ {float : Float} where
  Ends-Unheard :
      {A : Type 0} (p : Peer float) (r : Option (A × Peer float))
      → Unheard p
      → Ends (Stays p) r
      → Ends Unheard r
  Ends-Unheard p none h s = tt
  Ends-Unheard p (some (a, q)) h s = Stays-Unheard s h

  initiate_connect-Unheard : (p : Peer float) → Unheard p → Unheard (initiate_connect p)
  unfolding initiate_connect push_command
  initiate_connect-Unheard p h = elim (Bool-cases (is_idle p.state)) [
    | inl calls ↦ rw (initiate_connect, calls) (record { handshake = h.handshake; state = refl })
    | inr other ↦ rw (initiate_connect, other) h
  ]

  -- The branch of the handshake.
  calls-Unheard :
      (b : Bool) (p q : Peer float) → b ≡ true → Unheard p → Unheard (if b then p else q)
  calls-Unheard true p q e h = h
  calls-Unheard false p q e h = cc

  waits-Unheard :
      (b : Bool) (p q : Peer float) → b ≡ true → Unheard p → Unheard (if not b then q else p)
  waits-Unheard true p q e h = h
  waits-Unheard false p q e h = cc

  sent_state-Unheard :
      (s : PeerState) (p : Peer float) → is_unheard s ≡ true → Unheard p → Unheard (sent_state s p)
  unfolding sent_state
  sent_state-Unheard idle p w h =
      calls-Unheard p.config.use_connection_handshake _ _ h.handshake (initiate_connect-Unheard p h)
  sent_state-Unheard connecting p w h = h
  sent_state-Unheard acknowledging_connect p w h = h
  sent_state-Unheard connection_succeeded p w h = cc
  sent_state-Unheard connected p w h = h
  sent_state-Unheard disconnecting p w h = h
  sent_state-Unheard zombie p w h = h

  record_send-Unheard : (p : Peer float) → Unheard p → Unheard (record_send p).1
  unfolding record_send
  record_send-Unheard p h = sent_state-Unheard p.state p h.state h

  received_state-Unheard :
      (s : PeerState) (p : Peer float)
      → is_unheard s ≡ true
      → Unheard p
      → Unheard (received_state s p)
  unfolding received_state
  received_state-Unheard idle p w h =
      waits-Unheard p.config.use_connection_handshake _ _ h.handshake h
  received_state-Unheard connecting p w h =
      waits-Unheard p.config.use_connection_handshake _ _ h.handshake h
  received_state-Unheard acknowledging_connect p w h = cc
  received_state-Unheard connection_succeeded p w h = h
  received_state-Unheard connected p w h = h
  received_state-Unheard disconnecting p w h = h
  received_state-Unheard zombie p w h = h

  disconnect-Unheard : (p : Peer float) → Unheard p → Unheard (disconnect p)
  unfolding disconnect push_command
  disconnect-Unheard p h = elim (Bool-cases (is_disconnecting p.state)) [
    | inl already ↦ rw (disconnect, already) h
    | inr active ↦ rw (disconnect, active) (record { handshake = h.handshake; state = refl })
  ]

  handle_received-Unheard : (r : Received float) → Ends Unheard r → Ends Unheard (handle_received r)
  unfolding record_recv
  handle_received-Unheard none h = tt
  handle_received-Unheard (some (failed e, q)) h = h
  handle_received-Unheard (some (done packets, q)) h = received_state-Unheard q.state q h.state h

module _ {float : Float} ⦃bytes : ByteOrder⦄ (crc32 : List ℕ → ℕ) (c : Compressors) where
  process_command_packet-Unheard :
      (p : Peer float) (payload : List ℕ) (time random : ℕ)
      → IsQuiet crc32 c p.config payload
      → Unheard p
      → Ends Unheard (process_command_packet crc32 c p payload time random)
  unfolding process_command_packet record_packet_received record_data_received
  process_command_packet-Unheard p payload time random quiet h =
      let p' = record_data_received p (length payload) in
      elim (Result-cases (unpack crc32 c p'.config payload)) [
        | inl (e, refused) ↦ rw (process_command_packet, refused) (same _ h refl refl)
        | inr (commands, e) ↦
            rw (process_command_packet, e)
              (process_commands-Unheard (record_packet_received p') commands time random
                (quiet commands e) (same _ h refl refl))
      ]

  process_packet-Unheard :
      (p : Peer float) (payload : List ℕ) (time random : ℕ)
      → IsQuiet crc32 c p.config payload
      → Unheard p
      → Ends Unheard (process_packet crc32 c p payload time random)
  unfolding process_packet
  process_packet-Unheard p [] time random quiet h = h
  process_packet-Unheard p (b ∷ payload) time random quiet h =
      let p' = update_window p time in
      elim (Bool-cases (can_receive_within_bandwidth p'.bandwidth_throttle)) [
        | inr over ↦ rw (process_packet, over) (same _ h refl refl)
        | inl within ↦
            rw (process_packet, within)
              (handle_received-Unheard _ (
                process_command_packet-Unheard _ (b ∷ payload) time random quiet
                  (same _ h refl refl)))
      ]

  -- No datagram of the run has a command of the handshake.
  abbrev pub Quiet : {p q : Peer float} → Run crc32 c p q → Type 0
  Quiet starts = Unit
  Quiet (receives {q = q} payload time random actions run e) =
      IsQuiet crc32 c q.config payload × Quiet run
  Quiet (sends event actions run e) = Quiet run
  Quiet (updates time elapsed token fill actions run e) = Quiet run
  Quiet (disconnects run) = Quiet run

  Run-Unheard : {p q : Peer float} → Unheard p → (run : Run crc32 c p q) → Quiet run → Unheard q
  Run-Unheard h starts quiet = h
  Run-Unheard h (receives {q = q} payload time random actions run e) quiet =
      subst (Ends Unheard) e
        (process_packet-Unheard q payload time random quiet.0 (Run-Unheard h run quiet.1))
  Run-Unheard h (sends {q = q} event actions run e) quiet = subst (Ends Unheard) e (
      Ends-Unheard (record_send q).1 (process_event crc32 c q event)
        (record_send-Unheard q (Run-Unheard h run quiet)) (process_event-Stays crc32 c q event))
  Run-Unheard h (updates {q = q} time elapsed token fill actions run e) quiet =
      subst (Ends Unheard) e (
        Ends-Unheard q (update crc32 c q time elapsed token fill) (Run-Unheard h run quiet)
          (update-Ends crc32 c q time elapsed token fill))
  Run-Unheard h (disconnects {q = q} run) quiet = disconnect-Unheard q (Run-Unheard h run quiet)

  -- With the handshake in use, a new session is not established as long as no datagram with a
  -- `Connect` or a `VerifyConnect` has come, whatever else it has received, sent and updated.
  pub Quiet-is_established :
      (addr : ℕ) (config : Config) (time session_id connect_id : ℕ) (q : Peer float)
      → config.use_connection_handshake ≡ true
      → (run : Run crc32 c (new addr config time session_id connect_id) q) → Quiet run
      → is_established q.state ≡ false
  unfolding new
  Quiet-is_established addr config time session_id connect_id q handshake run quiet =
      unheard-is_established q.state
        (Run-Unheard (record { handshake = handshake; state = refl }) run quiet).state
