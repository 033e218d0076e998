-- ===== src/Codec/Encoder.antt =====
-- crates/bitfold-protocol/src/command_codec/encoder.rs. The source has the match over the commands
-- twice, once for each entry point, and so has this file.
use bitfold.Prelude.{
  ℕ, ◌+◌, ◌-◌, ◌/◌, ◌%◌, ◌^◌, List, [], ◌∷◌, Option, none, some, length, set, if◌then◌else◌,
}
use bitfold.Core.Shared.{as_slice}
use bitfold.Command.{
  ProtocolCommand, send_reliable, send_unreliable, send_unreliable_sequenced, send_unsequenced,
  send_fragment, send_unreliable_fragment, acknowledge, ping, pong, connect, verify_connect,
  disconnect, bandwidth_limit, throttle_configure, pmtu_probe, pmtu_reply, command_type,
  CommandPacket,
}
use bitfold.Codec.Bytes.{ByteOrder, ◌▷◌, write_u8, write_u16, write_u32, write_all}

-- `buffer[len_pos] = …; buffer[len_pos + 1] = …`: both places lie inside the buffer.
unfoldable pub patch_length : List ℕ → ℕ → ℕ → List ℕ
patch_length buffer len_pos cmd_len =
    set (set buffer len_pos (cmd_len / 2 ^ 8 % 256)) (len_pos + 1) (cmd_len % 256)

module _ ⦃bytes : ByteOrder⦄ where
  -- `if let Some(time) = sent_time { … }`
  abbrev pub write_time : Option ℕ → List ℕ → List ℕ
  write_time none buffer = buffer
  write_time (some time) buffer = write_u32 time buffer

  -- The match of `encode_command_into`.
  unfoldable pub encode_fields_into : List ℕ → ProtocolCommand → List ℕ
  encode_fields_into buffer (send_reliable channel_id sequence ordered payload) =
      buffer
      ▷ write_u8 channel_id
      ▷ write_u16 sequence
      ▷ write_u8 (if ordered then 1 else 0)
      ▷ write_u16 (payload.len % 2 ^ 16)
      ▷ write_all (as_slice payload)
  encode_fields_into buffer (send_unreliable channel_id payload) =
      buffer ▷ write_u8 channel_id ▷ write_u16 (payload.len % 2 ^ 16) ▷ write_all (as_slice payload)
  encode_fields_into buffer (send_unreliable_sequenced channel_id sequence payload) =
      buffer
      ▷ write_u8 channel_id
      ▷ write_u16 sequence
      ▷ write_u16 (payload.len % 2 ^ 16)
      ▷ write_all (as_slice payload)
  encode_fields_into buffer (send_unsequenced channel_id unsequenced_group payload) =
      buffer
      ▷ write_u8 channel_id
      ▷ write_u16 unsequenced_group
      ▷ write_u16 (payload.len % 2 ^ 16)
      ▷ write_all (as_slice payload)
  encode_fields_into buffer
        (send_fragment channel_id sequence ordered fragment_id fragment_count payload) =
      buffer
      ▷ write_u8 channel_id
      ▷ write_u16 sequence
      ▷ write_u8 (if ordered then 1 else 0)
      ▷ write_u8 fragment_id
      ▷ write_u8 fragment_count
      ▷ write_u16 (payload.len % 2 ^ 16)
      ▷ write_all (as_slice payload)
  encode_fields_into buffer
        (send_unreliable_fragment channel_id sequence fragment_id fragment_count payload) =
      buffer
      ▷ write_u8 channel_id
      ▷ write_u16 sequence
      ▷ write_u8 fragment_id
      ▷ write_u8 fragment_count
      ▷ write_u16 (payload.len % 2 ^ 16)
      ▷ write_all (as_slice payload)
  encode_fields_into buffer (acknowledge sequence received_mask sent_time) =
      buffer ▷ write_u16 sequence ▷ write_u32 received_mask ▷ write_time sent_time
  encode_fields_into buffer (ping timestamp) = buffer ▷ write_u32 timestamp
  encode_fields_into buffer (pong timestamp) = buffer ▷ write_u32 timestamp
  encode_fields_into buffer (connect channels mtu protocol_version outgoing_session_id connect_id) =
      buffer
      ▷ write_u8 channels
      ▷ write_u16 mtu
      ▷ write_u16 protocol_version
      ▷ write_u16 outgoing_session_id
      ▷ write_u32 connect_id
  encode_fields_into buffer
        (verify_connect peer_id channels mtu incoming_session_id outgoing_session_id window_size) =
      buffer
      ▷ write_u16 peer_id
      ▷ write_u8 channels
      ▷ write_u16 mtu
      ▷ write_u16 incoming_session_id
      ▷ write_u16 outgoing_session_id
      ▷ write_u32 window_size
  encode_fields_into buffer (disconnect reason) = buffer ▷ write_u32 reason
  encode_fields_into buffer (bandwidth_limit incoming outgoing) =
      buffer ▷ write_u32 incoming ▷ write_u32 outgoing
  encode_fields_into buffer (throttle_configure interval acceleration deceleration) =
      buffer ▷ write_u32 interval ▷ write_u32 acceleration ▷ write_u32 deceleration
  encode_fields_into buffer (pmtu_probe size token payload) =
      buffer
      ▷ write_u16 size
      ▷ write_u32 token
      ▷ write_u16 (payload.len % 2 ^ 16)
      ▷ write_all (as_slice payload)
  encode_fields_into buffer (pmtu_reply size token) = buffer ▷ write_u16 size ▷ write_u32 token

  unfoldable pub encode_command_into : List ℕ → ProtocolCommand → List ℕ
  encode_command_into buffer command =
      encode_fields_into (buffer ▷ write_u8 (command_type command)) command

  -- The match of `encode_command`.
  unfoldable pub encode_fields : List ℕ → ProtocolCommand → List ℕ
  encode_fields buffer (send_reliable channel_id sequence ordered payload) =
      buffer
      ▷ write_u8 channel_id
      ▷ write_u16 sequence
      ▷ write_u8 (if ordered then 1 else 0)
      ▷ write_u16 (payload.len % 2 ^ 16)
      ▷ write_all (as_slice payload)
  encode_fields buffer (send_unreliable channel_id payload) =
      buffer ▷ write_u8 channel_id ▷ write_u16 (payload.len % 2 ^ 16) ▷ write_all (as_slice payload)
  encode_fields buffer (send_unreliable_sequenced channel_id sequence payload) =
      buffer
      ▷ write_u8 channel_id
      ▷ write_u16 sequence
      ▷ write_u16 (payload.len % 2 ^ 16)
      ▷ write_all (as_slice payload)
  encode_fields buffer (send_unsequenced channel_id unsequenced_group payload) =
      buffer
      ▷ write_u8 channel_id
      ▷ write_u16 unsequenced_group
      ▷ write_u16 (payload.len % 2 ^ 16)
      ▷ write_all (as_slice payload)
  encode_fields buffer
        (send_fragment channel_id sequence ordered fragment_id fragment_count payload) =
      buffer
      ▷ write_u8 channel_id
      ▷ write_u16 sequence
      ▷ write_u8 (if ordered then 1 else 0)
      ▷ write_u8 fragment_id
      ▷ write_u8 fragment_count
      ▷ write_u16 (payload.len % 2 ^ 16)
      ▷ write_all (as_slice payload)
  encode_fields buffer
        (send_unreliable_fragment channel_id sequence fragment_id fragment_count payload) =
      buffer
      ▷ write_u8 channel_id
      ▷ write_u16 sequence
      ▷ write_u8 fragment_id
      ▷ write_u8 fragment_count
      ▷ write_u16 (payload.len % 2 ^ 16)
      ▷ write_all (as_slice payload)
  encode_fields buffer (acknowledge sequence received_mask sent_time) =
      buffer ▷ write_u16 sequence ▷ write_u32 received_mask ▷ write_time sent_time
  encode_fields buffer (ping timestamp) = buffer ▷ write_u32 timestamp
  encode_fields buffer (pong timestamp) = buffer ▷ write_u32 timestamp
  encode_fields buffer (connect channels mtu protocol_version outgoing_session_id connect_id) =
      buffer
      ▷ write_u8 channels
      ▷ write_u16 mtu
      ▷ write_u16 protocol_version
      ▷ write_u16 outgoing_session_id
      ▷ write_u32 connect_id
  encode_fields buffer
        (verify_connect peer_id channels mtu incoming_session_id outgoing_session_id window_size) =
      buffer
      ▷ write_u16 peer_id
      ▷ write_u8 channels
      ▷ write_u16 mtu
      ▷ write_u16 incoming_session_id
      ▷ write_u16 outgoing_session_id
      ▷ write_u32 window_size
  encode_fields buffer (disconnect reason) = buffer ▷ write_u32 reason
  encode_fields buffer (bandwidth_limit incoming outgoing) =
      buffer ▷ write_u32 incoming ▷ write_u32 outgoing
  encode_fields buffer (throttle_configure interval acceleration deceleration) =
      buffer ▷ write_u32 interval ▷ write_u32 acceleration ▷ write_u32 deceleration
  encode_fields buffer (pmtu_probe size token payload) =
      buffer
      ▷ write_u16 size
      ▷ write_u32 token
      ▷ write_u16 (payload.len % 2 ^ 16)
      ▷ write_all (as_slice payload)
  encode_fields buffer (pmtu_reply size token) = buffer ▷ write_u16 size ▷ write_u32 token

  unfoldable pub encode_command : ProtocolCommand → List ℕ
  encode_command command = encode_fields ([] ▷ write_u8 (command_type command)) command

  -- One turn of the loop of `encode_packet_into`.
  unfoldable pub encode_prefixed_into : List ℕ → ProtocolCommand → List ℕ
  encode_prefixed_into buffer command =
      let len_pos = length buffer in
      let start = length (buffer ▷ write_u16 0) in
      let written = encode_command_into (buffer ▷ write_u16 0) command in
      patch_length written len_pos (length written - start)

  unfoldable pub encode_commands_into : List ℕ → List ProtocolCommand → List ℕ
  encode_commands_into buffer [] = buffer
  encode_commands_into buffer (command ∷ commands) =
      encode_commands_into (encode_prefixed_into buffer command) commands

  unfoldable pub encode_packet_into : List ℕ → CommandPacket → List ℕ
  encode_packet_into buffer packet =
      encode_commands_into (buffer ▷ write_u8 (length packet.commands % 2 ^ 8)) packet.commands

  -- One turn of the loop of `encode_packet`.
  unfoldable pub encode_prefixed : List ℕ → ProtocolCommand → List ℕ
  encode_prefixed buffer command =
      let cmd_bytes = encode_command command in
      buffer ▷ write_u16 (length cmd_bytes % 2 ^ 16) ▷ write_all cmd_bytes

  unfoldable pub encode_commands : List ℕ → List ProtocolCommand → List ℕ
  encode_commands buffer [] = buffer
  encode_commands buffer (command ∷ commands) =
      encode_commands (encode_prefixed buffer command) commands

  unfoldable pub encode_packet : CommandPacket → List ℕ
  encode_packet packet =
      encode_commands ([] ▷ write_u8 (length packet.commands % 2 ^ 8)) packet.commands
