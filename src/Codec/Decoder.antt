-- ===== src/Codec/Decoder.antt =====
-- crates/bitfold-protocol/src/command_codec/decoder.rs. Each arm of the match over the command's
-- type is a function of its own.
use bitfold.Prelude.{
  ℕ, zero, suc, Bool, true, false, List, Option, none, some, length, take, drop, ltb, ◌==◌, ◌!=◌,
  if◌then◌else◌,
}
use bitfold.Core.Shared.{from_vec}
use bitfold.Command.{
  ProtocolCommand, send_reliable, send_unreliable, send_unreliable_sequenced, send_unsequenced,
  send_fragment, send_unreliable_fragment, acknowledge, ping, pong, connect, verify_connect,
  disconnect, bandwidth_limit, throttle_configure, pmtu_probe, pmtu_reply, CommandPacket,
  new_packet, add_command,
}
use bitfold.Codec.Bytes.{
  ByteOrder, Reader, Result, ok, err, unexpected_eof, invalid_data, and_then, value_of, ◌>>=◌,
  return, fail, has_more, read_exact, read_u8, read_u16, read_u32,
}

module _ ⦃bytes : ByteOrder⦄ where
  unfoldable pub decode_send_reliable : Reader ProtocolCommand
  decode_send_reliable = do
    channel_id ← read_u8
    sequence ← read_u16
    ordered ← read_u8
    data_len ← read_u16
    data_vec ← read_exact data_len
    return (send_reliable channel_id sequence (ordered != 0) (from_vec data_vec))

  unfoldable pub decode_send_unreliable : Reader ProtocolCommand
  decode_send_unreliable = do
    channel_id ← read_u8
    data_len ← read_u16
    data_vec ← read_exact data_len
    return (send_unreliable channel_id (from_vec data_vec))

  unfoldable pub decode_send_unreliable_sequenced : Reader ProtocolCommand
  decode_send_unreliable_sequenced = do
    channel_id ← read_u8
    sequence ← read_u16
    data_len ← read_u16
    data_vec ← read_exact data_len
    return (send_unreliable_sequenced channel_id sequence (from_vec data_vec))

  unfoldable pub decode_send_unsequenced : Reader ProtocolCommand
  decode_send_unsequenced = do
    channel_id ← read_u8
    unsequenced_group ← read_u16
    data_len ← read_u16
    data_vec ← read_exact data_len
    return (send_unsequenced channel_id unsequenced_group (from_vec data_vec))

  unfoldable pub decode_send_fragment : Reader ProtocolCommand
  decode_send_fragment = do
    channel_id ← read_u8
    sequence ← read_u16
    ordered ← read_u8
    fragment_id ← read_u8
    fragment_count ← read_u8
    data_len ← read_u16
    data_vec ← read_exact data_len
    return (
        send_fragment channel_id sequence (ordered != 0) fragment_id fragment_count
          (from_vec data_vec))

  unfoldable pub decode_send_unreliable_fragment : Reader ProtocolCommand
  decode_send_unreliable_fragment = do
    channel_id ← read_u8
    sequence ← read_u16
    fragment_id ← read_u8
    fragment_count ← read_u8
    data_len ← read_u16
    data_vec ← read_exact data_len
    return (
        send_unreliable_fragment channel_id sequence fragment_id fragment_count (from_vec data_vec))

  -- The timestamp is read only if bytes are left.
  unfoldable pub read_time : Bool → Reader (Option ℕ)
  read_time true = do time ← read_u32; return (some time)
  read_time false = return none

  unfoldable pub decode_acknowledge : Reader ProtocolCommand
  decode_acknowledge = do
    sequence ← read_u16
    received_mask ← read_u32
    more ← has_more
    sent_time ← read_time more
    return (acknowledge sequence received_mask sent_time)

  unfoldable pub decode_ping : Reader ProtocolCommand
  decode_ping = do timestamp ← read_u32; return (ping timestamp)

  unfoldable pub decode_pong : Reader ProtocolCommand
  decode_pong = do timestamp ← read_u32; return (pong timestamp)

  unfoldable pub decode_connect : Reader ProtocolCommand
  decode_connect = do
    channels ← read_u8
    mtu ← read_u16
    protocol_version ← read_u16
    outgoing_session_id ← read_u16
    connect_id ← read_u32
    return (connect channels mtu protocol_version outgoing_session_id connect_id)

  unfoldable pub decode_verify_connect : Reader ProtocolCommand
  decode_verify_connect = do
    peer_id ← read_u16
    channels ← read_u8
    mtu ← read_u16
    incoming_session_id ← read_u16
    outgoing_session_id ← read_u16
    window_size ← read_u32
    return (verify_connect peer_id channels mtu incoming_session_id outgoing_session_id window_size)

  unfoldable pub decode_disconnect : Reader ProtocolCommand
  decode_disconnect = do reason ← read_u32; return (disconnect reason)

  unfoldable pub decode_bandwidth_limit : Reader ProtocolCommand
  decode_bandwidth_limit = do
    incoming ← read_u32
    outgoing ← read_u32
    return (bandwidth_limit incoming outgoing)

  unfoldable pub decode_throttle_configure : Reader ProtocolCommand
  decode_throttle_configure = do
    interval ← read_u32
    acceleration ← read_u32
    deceleration ← read_u32
    return (throttle_configure interval acceleration deceleration)

  unfoldable pub decode_pmtu_probe : Reader ProtocolCommand
  decode_pmtu_probe = do
    size ← read_u16
    token ← read_u32
    data_len ← read_u16
    data_vec ← read_exact data_len
    return (pmtu_probe size token (from_vec data_vec))

  unfoldable pub decode_pmtu_reply : Reader ProtocolCommand
  decode_pmtu_reply = do size ← read_u16; token ← read_u32; return (pmtu_reply size token)

  -- The match over the command's type.
  unfoldable pub decode_fields : ℕ → Reader ProtocolCommand
  decode_fields cmd_type =
      if cmd_type == 1
      then decode_send_reliable
      else if cmd_type == 2
      then decode_send_unreliable
      else if cmd_type == 3
      then decode_send_unreliable_sequenced
      else if cmd_type == 4
      then decode_send_unsequenced
      else if cmd_type == 5
      then decode_send_fragment
      else if cmd_type == 6
      then decode_send_unreliable_fragment
      else if cmd_type == 7
      then decode_acknowledge
      else if cmd_type == 8
      then decode_ping
      else if cmd_type == 9
      then decode_pong
      else if cmd_type == 10
      then decode_connect
      else if cmd_type == 11
      then decode_verify_connect
      else if cmd_type == 12
      then decode_disconnect
      else if cmd_type == 13
      then decode_bandwidth_limit
      else if cmd_type == 14
      then decode_throttle_configure
      else if cmd_type == 15
      then decode_pmtu_probe
      else if cmd_type == 16
      then decode_pmtu_reply
      else fail invalid_data

  unfoldable pub decode_command : Reader ProtocolCommand
  decode_command = do cmd_type ← read_u8; decode_fields cmd_type

  -- The command behind one length prefix; its cursor ends with its bytes, and what it leaves unread
  -- is skipped.
  unfoldable pub decode_sliced : ℕ → Reader ProtocolCommand
  decode_sliced cmd_len s =
      if ltb (length s) cmd_len
      then err unexpected_eof
      else and_then (decode_command (take cmd_len s))
          (λ command unread. ok (command, drop cmd_len s))

  -- The loop of `decode_packet`, by the turns left.
  unfoldable pub decode_commands : ℕ → CommandPacket → Reader CommandPacket
  decode_commands zero packet = return packet
  decode_commands (suc turns) packet = do
    cmd_len ← read_u16
    command ← decode_sliced cmd_len
    decode_commands turns (add_command packet command)

  unfoldable pub read_packet : Reader CommandPacket
  read_packet = do cmd_count ← read_u8; decode_commands cmd_count new_packet

  -- Bytes behind the last command are ignored.
  unfoldable pub decode_packet : List ℕ → Result CommandPacket
  decode_packet input = value_of (read_packet input)
