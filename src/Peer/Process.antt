-- ===== src/Peer/Process.antt =====
-- crates/bitfold-peer/src/peer/command_processor.rs: the handshake and the other control commands, the
-- match over all commands, and the packets of commands. The random peer id is an argument: no more
-- than one `Connect` of a packet finds the peer in `Idle`.
use bitfold.Prelude.{ℕ, List, [], ◌∷◌, ◌++◌, Option, none, some, length, ◌!=◌, if◌then◌else◌, min}
use bitfold.Core.Float.{Float}
use bitfold.Core.Config.{Config}
use bitfold.Core.Error.{could_not_read_header, Outcome, done, failed}
use bitfold.Command.{
  ProtocolCommand, send_reliable, send_unreliable, send_unreliable_sequenced, send_unsequenced,
  send_fragment, send_unreliable_fragment, acknowledge, ping, pong, connect, verify_connect,
  disconnect, bandwidth_limit, throttle_configure, pmtu_probe, pmtu_reply,
}
use bitfold.Throttle.{set_incoming_bandwidth_limit, set_outgoing_bandwidth_limit}
use bitfold.Pmtu.{process_reply, create_reply}
use bitfold.Congestion.{configure_throttle}
use bitfold.Packet.{Packet, unreliable, unordered, PacketType, zero_packets, into_iter}
use bitfold.Peer.{Peer, push_command, enqueue_command_peer, enqueue_pong_command}
use bitfold.Codec.Bytes.{ByteOrder, Result, ok, err}
use bitfold.Codec.Checksum.{validate_and_strip_checksum}
use bitfold.Codec.Compression.{Compressors, decompress}
use bitfold.Codec.Decoder.{decode_packet}
use bitfold.Peer.Receive.{
  payload_of, Processed, yields, deliver, process_acknowledge, process_send_reliable,
  process_send_unreliable_sequenced, process_send_unsequenced, process_send_fragment,
  process_send_unreliable_fragment,
}
use bitfold.Peer.Parts.{set_window_size, record_packet_received, record_data_received}
use bitfold.Peer.State.{acknowledging_connect, connection_succeeded, zombie, is_idle, awaits_verify}

-- What the commands of a packet yield: an error drops the packets before it, but not what their
-- commands have done to the peer.
abbrev pub Received : Float → Type 0
Received float = Option (Outcome (List (Packet × PacketType)) × Peer float)

module _ {float : Float} where
  -- Only in `Idle`: the client's ids are taken over, and the offer is answered.
  unfoldable pub process_connect :
      Peer float → (channels outgoing_session_id connect_id random : ℕ) → Processed float
  process_connect p channels outgoing_session_id connect_id random =
      if is_idle p.state
      then yields zero_packets (
          push_command
            (record p {
              incoming_session_id = outgoing_session_id;
              peer_id = random;
              connect_id = connect_id;
              state = acknowledging_connect;
            })
            (verify_connect random (min channels p.config.channel_count) 1400 outgoing_session_id
              p.outgoing_session_id p.flow_control.window_size))
      else yields zero_packets p

  -- `None` is the panic of `clamp`.
  unfoldable pub negotiate_window : Peer float → ℕ → Option (Peer float)
  negotiate_window p window_size =
      if p.config.use_window_flow_control
      then set_window_size p (min window_size p.flow_control.window_size)
      else some p

  unfoldable pub process_verify_connect :
      Peer float
      → (peer_id incoming_session_id outgoing_session_id window_size : ℕ) → Processed float
  process_verify_connect p peer_id incoming_session_id outgoing_session_id window_size =
      if awaits_verify p.state
      then elim (negotiate_window
          (record p { peer_id = peer_id; incoming_session_id = incoming_session_id }) window_size) [
            | none ↦ none
            | some p' ↦
                if outgoing_session_id != p'.outgoing_session_id
                then some (failed could_not_read_header, p')
                else yields zero_packets (record p' { state = connection_succeeded })
          ]
      else yields zero_packets p

  unfoldable pub process_bandwidth_limit : Peer float → (incoming outgoing : ℕ) → Processed float
  process_bandwidth_limit p incoming outgoing = yields zero_packets (record p {
    config = record p.config {
      incoming_bandwidth_limit = incoming;
      outgoing_bandwidth_limit = outgoing;
    };
    bandwidth_throttle =
        set_outgoing_bandwidth_limit (set_incoming_bandwidth_limit p.bandwidth_throttle incoming)
          outgoing;
  })

  unfoldable pub process_throttle_configure :
      Peer float → (interval acceleration deceleration : ℕ) → Processed float
  process_throttle_configure p interval acceleration deceleration = yields zero_packets (record p {
    acknowledge_handler = record p.acknowledge_handler {
      congestion =
          configure_throttle p.acknowledge_handler.congestion interval acceleration deceleration;
    };
  })

  -- The match over the commands.
  unfoldable pub process_arm : Peer float → ProtocolCommand → (time random : ℕ) → Processed float
  process_arm p (acknowledge s m t) time random = process_acknowledge p s m time
  process_arm p (ping t) time random = yields zero_packets (enqueue_pong_command p t)
  process_arm p (pong t) time random = yields zero_packets p
  process_arm p (send_reliable c s o d) time random = process_send_reliable p c s o d time
  process_arm p (send_unreliable c d) time random =
      yields (deliver p c unreliable unordered (payload_of d)) p
  process_arm p (send_unreliable_sequenced c s d) time random =
      process_send_unreliable_sequenced p c s d
  process_arm p (send_unsequenced c g d) time random = process_send_unsequenced p c g d
  process_arm p (send_fragment c s o i n d) time random = process_send_fragment p c s o i n d time
  process_arm p (send_unreliable_fragment c s i n d) time random =
      process_send_unreliable_fragment p c s i n d time
  process_arm p (disconnect r) time random = yields zero_packets (record p { state = zombie })
  process_arm p (connect c m v o i) time random = process_connect p c o i random
  process_arm p (verify_connect i c m incoming outgoing w) time random =
      process_verify_connect p i incoming outgoing w
  process_arm p (bandwidth_limit i o) time random = process_bandwidth_limit p i o
  process_arm p (throttle_configure i a d) time random = process_throttle_configure p i a d
  process_arm p (pmtu_probe s t d) time random =
      yields zero_packets (enqueue_command_peer p (create_reply s t)).1
  process_arm p (pmtu_reply s t) time random =
      yields zero_packets (record p { pmtu = (process_reply p.pmtu s t time).1 })

  unfoldable pub process_command :
      Peer float → ProtocolCommand → (time random : ℕ) → Processed float
  process_command p command time random =
      process_arm (record p { last_heard = time }) command time random

  abbrev pub behind : List (Packet × PacketType) → Received float → Received float
  behind ps none = none
  behind ps (some (failed e, p)) = some (failed e, p)
  behind ps (some (done qs, p)) = some (done (ps ++ qs), p)

  -- `?` and the loop that collects the packets.
  abbrev pub continue_with : Processed float → (Peer float → Received float) → Received float
  continue_with none rest = none
  continue_with (some (failed e, p)) rest = some (failed e, p)
  continue_with (some (done packets, p)) rest = behind (into_iter packets) (rest p)

  unfoldable pub process_commands :
      Peer float → List ProtocolCommand → (time random : ℕ) → Received float
  process_commands p [] time random = some (done [], p)
  process_commands p (c ∷ cs) time random =
      continue_with (process_command p c time random) (λ p'. process_commands p' cs time random)

module _ ⦃bytes : ByteOrder⦄ (crc32 : List ℕ → ℕ) (c : Compressors) where
  -- The bytes without checksum and compression, and the commands in them.
  unfoldable pub unpack : Config → List ℕ → Result (List ProtocolCommand)
  unpack config bytes_in =
      elim (if config.use_checksums
        then validate_and_strip_checksum crc32 bytes_in
        else ok bytes_in) [
          | err e ↦ err e
          | ok payload ↦ elim (decompress c payload) [
            | err e ↦ err e
            | ok decompressed ↦ elim (decode_packet decompressed) [
              | err e ↦ err e
              | ok decoded ↦ ok decoded.commands
            ]
          ]
        ]

module _ {float : Float} ⦃bytes : ByteOrder⦄ (crc32 : List ℕ → ℕ) (c : Compressors) where
  unfoldable pub process_command_packet : Peer float → List ℕ → (time random : ℕ) → Received float
  process_command_packet p bytes_in time random =
      let p' = record_data_received p (length bytes_in) in
      elim (unpack crc32 c p'.config bytes_in) [
        | err e ↦ some (failed could_not_read_header, p')
        | ok commands ↦ process_commands (record_packet_received p') commands time random
      ]
