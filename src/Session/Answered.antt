-- ===== src/Session/Answered.antt =====
-- About the results of `process_packet`, and the panics on the way.
use bitfold.Prelude.{
  ℕ, inl, inr, Bool, true, false, not, if◌then◌else◌, List, [], ◌∷◌, none, some, length, Bool-cases,
}
use bitfold.Core.Float.{Float}
use bitfold.Core.Error.{done, failed}
use bitfold.Command.{ProtocolCommand}
use bitfold.Codec.Bytes.{ByteOrder, Result-cases}
use bitfold.Codec.Compression.{Compressors}
use bitfold.Throttle.{can_receive_within_bandwidth}
use bitfold.Packet.{Packet, PacketType}
use bitfold.Peer.{Peer, received_state, record_recv}
use bitfold.Peer.State.{
  PeerState, idle, connecting, acknowledging_connect, connection_succeeded, connected,
  disconnecting, zombie,
}
use bitfold.Peer.Parts.{record_packet_received, record_data_received}
use bitfold.Peer.Receive.{Processed}
use bitfold.Peer.Process.{
  Received, behind, continue_with, unpack, process_commands, process_command_packet,
}
use bitfold.Peer.Handshake.Answered.{Answers, process_command-Answers}
use bitfold.Peer.Kept.{Ranged}
use bitfold.Session.{update_window}
use bitfold.Session.Run.{handle_received, process_packet}

module _ {float : Float} where
  behind-Answers :
      (packets : List (Packet × PacketType)) (r : Received float)
      → Answers r
      → Answers (behind packets r)
  behind-Answers packets none h = elim h [ ]
  behind-Answers packets (some (failed e, q)) h = h
  behind-Answers packets (some (done qs, q)) h = h

  continue_with-Answers :
      (r : Processed float) (rest : Peer float → Received float)
      → Answers r
      → ((q : Peer float) → Ranged q → Answers (rest q))
      → Answers (continue_with r rest)
  continue_with-Answers none rest h k = elim h [ ]
  continue_with-Answers (some (failed e, q)) rest h k = h
  continue_with-Answers (some (done packets, q)) rest h k = behind-Answers _ (rest q) (k q h)

  process_commands-Answers :
      (p : Peer float) (cs : List ProtocolCommand) (time random : ℕ)
      → Ranged p
      → Answers (process_commands p cs time random)
  unfolding process_commands
  process_commands-Answers p [] time random range = range
  process_commands-Answers p (c ∷ cs) time random range =
      continue_with-Answers _ _ (process_command-Answers p c time random range)
        (λ q h. process_commands-Answers q cs time random h)

  implicit-Ranged :
      (handshake : Bool) (p : Peer float)
      → Ranged p
      → Ranged (if not handshake then record p { state = connected } else p)
  implicit-Ranged true p range = range
  implicit-Ranged false p range = range

  received_state-Ranged : (s : PeerState) (p : Peer float) → Ranged p → Ranged (received_state s p)
  unfolding received_state
  received_state-Ranged idle p range = implicit-Ranged p.config.use_connection_handshake p range
  received_state-Ranged connecting p range =
      implicit-Ranged p.config.use_connection_handshake p range
  received_state-Ranged acknowledging_connect p range = range
  received_state-Ranged connection_succeeded p range = range
  received_state-Ranged connected p range = range
  received_state-Ranged disconnecting p range = range
  received_state-Ranged zombie p range = range

  handle_received-Answers : (r : Received float) → Answers r → Answers (handle_received r)
  unfolding record_recv
  handle_received-Answers none h = elim h [ ]
  handle_received-Answers (some (failed e, q)) h = h
  handle_received-Answers (some (done packets, q)) h = received_state-Ranged q.state q h

module _ {float : Float} ⦃bytes : ByteOrder⦄ (crc32 : List ℕ → ℕ) (c : Compressors) where
  process_command_packet-Answers :
      (p : Peer float) (payload : List ℕ) (time random : ℕ)
      → Ranged p
      → Answers (process_command_packet crc32 c p payload time random)
  unfolding process_command_packet record_packet_received record_data_received
  process_command_packet-Answers p payload time random range =
      let p' = record_data_received p (length payload) in
      elim (Result-cases (unpack crc32 c p'.config payload)) [
        | inl (e, refused) ↦ rw (process_command_packet, refused) range
        | inr (commands, e) ↦
            rw (process_command_packet, e)
              (process_commands-Answers (record_packet_received p') commands time random range)
      ]

  -- Any datagram has a result, and the range of the peer that it leaves is still not empty, if that
  -- of the peer is not.
  pub process_packet-Answers :
      (p : Peer float) (payload : List ℕ) (time random : ℕ)
      → Ranged p
      → Answers (process_packet crc32 c p payload time random)
  unfolding process_packet
  process_packet-Answers p [] time random range = range
  process_packet-Answers p (b ∷ payload) time random range =
      let p' = update_window p time in
      elim (Bool-cases (can_receive_within_bandwidth p'.bandwidth_throttle)) [
        | inr over ↦ rw (process_packet, over) range
        | inl within ↦
            rw (process_packet, within)
              (handle_received-Answers _
                (process_command_packet-Answers _ (b ∷ payload) time random range))
      ]
