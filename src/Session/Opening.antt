-- ===== src/Session/Opening.antt =====
-- The first datagram that a server receives from a client.
use bitfold.Prelude.{ℕ, ◌%◌, ◌^◌, ◌≡◌, refl, ap, true, List, [], ◌∷◌, some, length, min}
use bitfold.Core.Float.{Float}
use bitfold.Command.{connect, verify_connect}
use bitfold.Codec.Bytes.{ByteOrder, ok}
use bitfold.Codec.Compression.{Compressors}
use bitfold.Queue.{enqueue}
use bitfold.Throttle.{can_receive_within_bandwidth, update_bandwidth_window, record_bytes_received}
use bitfold.Packet.{into_iter}
use bitfold.Peer.{Peer, push_command, record_recv, received_state}
use bitfold.Peer.State.{idle, connected, acknowledging_connect, is_idle, is_established}
use bitfold.Peer.Parts.{record_packet_received, record_data_received}
use bitfold.Peer.Process.{
  unpack, process_connect, process_arm, process_command, process_commands, process_command_packet,
}
use bitfold.Session.{emit_action, connect_event, update_window}
use bitfold.Session.Run.{process_packet}

module _ {float : Float} ⦃bytes : ByteOrder⦄ (crc32 : List ℕ → ℕ) (c : Compressors) where
  -- An idle session that is within its bandwidth and receives a datagram with a `Connect` only is
  -- established at once and reports the connection: the datagram that opens the handshake is taken
  -- for the acknowledgment that ends it.
  pub connect_establishes :
      (p : Peer float) (first : ℕ) (payload : List ℕ)
      (channels mtu protocol_version session_id connect_id time random : ℕ)
      → p.state ≡ idle
      → can_receive_within_bandwidth (update_bandwidth_window p.bandwidth_throttle time).1 ≡ true
      → unpack crc32 c p.config (first ∷ payload)
        ≡ ok (connect channels mtu protocol_version session_id connect_id ∷ [])
      → (q : Peer float) × (process_packet crc32 c p (first ∷ payload) time random
          ≡ some (emit_action (connect_event p.remote_address) ∷ [], q))
        × (q.state ≡ connected)
  unfolding process_packet process_command_packet process_commands process_command process_arm
      process_connect record_packet_received record_data_received record_recv received_state
      push_command enqueue is_established into_iter
  connect_establishes p first payload channels mtu protocol_version session_id connect_id time
        random is_new within e =
      let idles : is_idle p.state ≡ true = ap is_idle is_new in
      let p' = update_window p time in
      let size = length (first ∷ payload) in
      let counted : Peer float = record_packet_received (
        record_data_received
          (record p' {
            bandwidth_throttle = record_bytes_received p'.bandwidth_throttle (size % 2 ^ 32);
          })
          size) in
      let answered : Peer float =
        push_command
          (record counted {
            last_heard = time;
            incoming_session_id = session_id;
            peer_id = random;
            connect_id = connect_id;
            state = acknowledging_connect;
          })
          (verify_connect random (min channels p.config.channel_count) 1400 session_id
            p.outgoing_session_id p.flow_control.window_size) in
      (
        record answered { state = connected },
        rw
            (
              process_packet, within, process_command_packet, e, process_commands, process_command,
              process_arm, process_connect, idles,
            )
            refl,
        refl,
      )
