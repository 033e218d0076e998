-- ===== src/Peer/Encode.antt =====
-- crates/bitfold-peer/src/peer/encoder.rs: the queued commands as datagrams. The buffers that are
-- reused are left out.
pub mod Selection
pub mod Sealing
pub mod Requeue
pub mod Transmit
pub mod Oversized
use bitfold.Prelude.{
  ℕ, zero, suc, ◌+◌, Bool, true, false, not, List, [], ◌∷◌, ◌++◌, Option, none, some, length, take,
  drop, ltb, if◌then◌else◌,
}
use bitfold.Core.Float.{Float}
use bitfold.Core.Config.{Config, CompressionAlgorithm, no_compression, zlib, lz4}
use bitfold.Command.{ProtocolCommand, CommandPacket, new_packet, add_command, pmtu_probe}
use bitfold.Codec.Bytes.{ByteOrder, Result, ok, err}
use bitfold.Codec.Checksum.{append_checksum_in_place}
use bitfold.Codec.Compression.{Compressors, compress_with_buffer}
use bitfold.Codec.Encoder.{encode_command, encode_packet_into}
use bitfold.Peer.{Peer, enqueue_command_peer, drain_peer, has_queued_commands}
use bitfold.Peer.Parts.{record_packet_sent, record_data_sent}

abbrev starts_with_probe : List ProtocolCommand → Bool
starts_with_probe (pmtu_probe _ _ _ ∷ _) = true
starts_with_probe _ = false

unfoldable pub bounded_compression_overhead : CompressionAlgorithm → ℕ
bounded_compression_overhead lz4 = 5
bounded_compression_overhead _ = 1

unfoldable pub static_overhead : Config → ℕ
unfolding bounded_compression_overhead
static_overhead config =
    1 + bounded_compression_overhead config.compression + (if config.use_checksums then 4 else 0)

-- The bound in force: a datagram that begins with a probe may be as large as the receive buffer.
unfoldable pub size_limit : Config → List ProtocolCommand → ℕ → ℕ
size_limit config commands max_size =
    if starts_with_probe commands then config.receive_buffer_max_size else max_size

unfoldable pub packet_of : CommandPacket → List ProtocolCommand → CommandPacket
packet_of packet [] = packet
packet_of packet (c ∷ cs) = packet_of (add_command packet c) cs

module _ ⦃bytes : ByteOrder⦄ where
  -- The loop over the queue: how many commands fit, behind what is selected already.
  unfoldable pub select : (limit overhead aggregated : ℕ) → List ProtocolCommand → ℕ
  select limit overhead aggregated [] = 0
  select limit overhead aggregated (c ∷ cs) =
      let total = 2 + length (encode_command c) in
      let rest = select limit overhead (aggregated + total) cs in
      if ltb limit (overhead + aggregated + total) then 0 else suc rest

module _ {float : Float} where
  unfoldable pub requeue : Peer float → List ProtocolCommand → Peer float
  requeue p [] = p
  requeue p (c ∷ cs) = requeue (enqueue_command_peer p c).1 cs

module _ ⦃bytes : ByteOrder⦄ (crc32 : List ℕ → ℕ) (c : Compressors) where
  -- What both functions do with the packet: the bytes, compressed and with a checksum.
  unfoldable pub seal : Config → CommandPacket → Result (List ℕ)
  seal config packet =
      elim (compress_with_buffer c (encode_packet_into [] packet) config.compression
        config.compression_threshold []) [
          | err e ↦ err e
          | ok final_data ↦ ok (
              if config.use_checksums
              then append_checksum_in_place crc32 final_data
              else final_data)
        ]

module _ {float : Float} ⦃bytes : ByteOrder⦄ (crc32 : List ℕ → ℕ) (c : Compressors) where
  unfoldable pub encode_queued_commands : Peer float → Result (List ℕ) × Peer float
  encode_queued_commands p =
      let (commands, q) = drain_peer p in
      elim (seal crc32 c q.config (packet_of new_packet commands)) [
        | err e ↦ (err e, q)
        | ok final_data ↦
            (ok final_data, record_data_sent (record_packet_sent q) (length final_data))
      ]

  -- The part of `encode_queued_commands_bounded` behind the selection.
  unfoldable pub encode_selected :
      Peer float → (limit selected : ℕ) → Result (Option (List ℕ)) × Peer float
  encode_selected p limit selected =
      let (drained, q) = drain_peer p in
      let r = requeue q (drop selected drained) in
      elim (seal crc32 c r.config (packet_of new_packet (take selected drained))) [
        | err e ↦ (err e, r)
        | ok final_data ↦ (
          ok (if ltb limit (length final_data) then none else some final_data),
          record_data_sent (record_packet_sent r) (length final_data),
        )
      ]

  unfoldable pub encode_queued_commands_bounded :
      Peer float → ℕ → Result (Option (List ℕ)) × Peer float
  encode_queued_commands_bounded p max_size =
      let commands = p.waiting.command_queue.commands in
      let limit = size_limit p.config commands max_size in
      if not (has_queued_commands p)
      then (ok none, p)
      else elim (select limit (static_overhead p.config) 0 commands) [
        | zero ↦ (ok none, p)
        | suc n ↦ encode_selected p limit (suc n)
      ]
