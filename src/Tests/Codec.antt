-- ===== src/Tests/Codec.antt =====
-- The codec at concrete commands, packets and payloads.
use bitfold.Prelude.{
  ℕ, ◌+◌, ◌%◌, ◌^◌, ◌<◌, ◌≤◌, ◌≡◌, ◌↔◌, refl, true, false, List, [], ◌∷◌, ◌++◌, map, some, arith,
  length, take,
}
use bitfold.Core.Shared.{SharedBytes, as_slice}
use bitfold.Core.Config.{zlib}
use bitfold.Command.{
  ProtocolCommand, command_type, send_reliable, send_fragment, acknowledge, ping, CommandPacket,
  Carries,
}
use bitfold.Codec.Bytes.{ok, err, unexpected_eof}
use bitfold.Codec.Encoder.{
  encode_command, encode_packet_into, encode_packet, encode_fields, encode_prefixed,
  encode_commands,
}
use bitfold.Codec.Decoder.{decode_command, decode_packet}
use bitfold.Codec.Wire.{wire, wire_fields, detach}
use bitfold.Codec.RoundTrip.{decode_command-encode_command}
use bitfold.Codec.Packet.{PacketFits}
use bitfold.Codec.Packet.Encode.{encode_packet_into-eq-append}
use bitfold.Codec.Packet.Decode.{decode_packet-encode_packet}
use bitfold.Codec.Packet.Truncated.{decode_packet-take}
use bitfold.Codec.Checksum.{
  append_checksum, append_checksum_in_place, validate_and_strip_checksum,
  validate_and_strip_checksum_iff,
}
use bitfold.Codec.Compression.{compress_with_buffer, compress_by, decompress, decompress-compress}
use bitfold.Tests.Bytes.{big_endian, compressors, compressors-IsLossless}

-- Two of the three bytes of a buffer.
abbrev view : SharedBytes
view = record { buffer = 10 ∷ 20 ∷ 30 ∷ []; start = 1; len = 2 }

view-Carries : Carries view
view-Carries = omega arith

abbrev reliable_command : ProtocolCommand
reliable_command = send_reliable 3 300 true view

abbrev fragment : ProtocolCommand
fragment = send_fragment 1 65535 false 2 5 view

abbrev packet : CommandPacket
packet = record { commands = reliable_command ∷ ping 70000 ∷ acknowledge 7 5 (some 9) ∷ [] }

packet-PacketFits : PacketFits packet
unfolding wire wire_fields as_slice
packet-PacketFits = record {
  count = omega arith;
  each = (
    (omega arith, omega arith, view-Carries),
    omega arith,
    (omega arith, omega arith, ((omega arith, omega arith, omega arith), omega arith, tt)),
  );
}

decode_packet-encode_packet_example :
    decode_packet (encode_packet packet) ≡ ok (record { commands = map detach packet.commands })
decode_packet-encode_packet_example = decode_packet-encode_packet packet packet-PacketFits

decode_packet-take_example : decode_packet (take 20 (encode_packet packet)) ≡ err unexpected_eof
unfolding encode_packet encode_commands encode_prefixed encode_command encode_fields as_slice
decode_packet-take_example = decode_packet-take packet 20 packet-PacketFits (omega arith)

decode_command-encode_command_example :
    decode_command (encode_command fragment) ≡ ok (detach fragment, [])
decode_command-encode_command_example =
    decode_command-encode_command fragment
      (omega arith, omega arith, omega arith, omega arith, view-Carries)

encode_packet_into-eq-append_example :
    encode_packet_into (1 ∷ 2 ∷ []) packet ≡ (1 ∷ 2 ∷ []) ++ encode_packet packet
encode_packet_into-eq-append_example = encode_packet_into-eq-append (1 ∷ 2 ∷ []) packet

-- The bytes of a fragment on the wire.
fragment_bytes : encode_command fragment ≡ 5 ∷ 1 ∷ 255 ∷ 255 ∷ 0 ∷ 2 ∷ 5 ∷ 0 ∷ 2 ∷ 20 ∷ 30 ∷ []
unfolding encode_command encode_fields as_slice command_type
fragment_bytes = refl

-- Not a good checksum, but a `u32`.
abbrev crc32 : List ℕ → ℕ
crc32 xs = length xs % 2 ^ 32

crc32-lt : (xs : List ℕ) → crc32 xs < 2 ^ 32
crc32-lt xs = omega arith

validate_and_strip_checksum_iff_example :
    ((validate_and_strip_checksum crc32 (8 ∷ 9 ∷ 0 ∷ 0 ∷ 0 ∷ 2 ∷ []) ≡ ok (8 ∷ 9 ∷ []))
      ↔ (8 ∷ 9 ∷ 0 ∷ 0 ∷ 0 ∷ 2 ∷ [] ≡ append_checksum crc32 (8 ∷ 9 ∷ [])))
    × (append_checksum_in_place crc32 (8 ∷ 9 ∷ []) ≡ append_checksum crc32 (8 ∷ 9 ∷ []))
validate_and_strip_checksum_iff_example =
    validate_and_strip_checksum_iff crc32 crc32-lt (8 ∷ 9 ∷ 0 ∷ 0 ∷ 0 ∷ 2 ∷ []) (8 ∷ 9 ∷ [])
      (ground arith)

abbrev long_bytes : List ℕ
long_bytes = 0 ∷ 0 ∷ 0 ∷ 5 ∷ []

abbrev short_bytes : List ℕ
short_bytes = 1 ∷ 0 ∷ 5 ∷ []

decompress-compress_example :
    (decompress compressors short_bytes ≡ ok long_bytes)
    × (length short_bytes ≤ length long_bytes + 1)
unfolding compress_with_buffer compress_by
decompress-compress_example =
    decompress-compress compressors compressors-IsLossless long_bytes short_bytes (4 ∷ []) zlib 2
      (omega arith) refl
