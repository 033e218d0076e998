-- ===== src/Peer/Encode/Sealing.antt =====
-- What `unpack` makes of the bytes that `seal` gives.
use bitfold.Prelude.{
  ℕ, suc, ◌+◌, ◌≤◌, ◌<◌, ◌^◌, ◌≡◌, refl, List, [], ◌∷◌, ◌++◌, map, arith, length, length-append, ap,
  sym, ◌∙◌, append-nil, append_assoc, true, false, Bool-cases, inl, inr, if◌then◌else◌, Bool, ltb,
  ◌%◌,
}
use bitfold.Core.Config.{Config, CompressionAlgorithm, no_compression, zlib, lz4}
use bitfold.Command.{ProtocolCommand, CommandPacket, new_packet, add_command}
use bitfold.Codec.Bytes.{ByteOrder, ok}
use bitfold.Codec.Checksum.{
  append_checksum, append_checksum_in_place, validate_and_strip_checksum, strip-append, to_be_bytes,
}
use bitfold.Codec.Compression.{
  Compressors, IsLossless, compress_with_buffer, compress_by, decompress-compress, uncompressed,
}
use bitfold.Codec.Encoder.{encode_packet, encode_packet_into}
use bitfold.Codec.Decoder.{decode_packet}
use bitfold.Codec.Wire.{detach}
use bitfold.Codec.Packet.{framed, PacketFits}
use bitfold.Codec.Packet.Encode.{encode_packet_into-eq-append, encode_packet-framed}
use bitfold.Codec.Packet.Decode.{decode_packet-encode_packet}
use bitfold.Peer.Encode.{packet_of, seal, static_overhead, bounded_compression_overhead}
use bitfold.Peer.Process.{unpack}

-- `LZ4_MAX_INPUT_SIZE`
abbrev lz4_max_input_size : ℕ
lz4_max_input_size = 2_113_929_216

-- zlib writes into a vector, which does not fail; lz4 hands over a buffer of the size that its bound
-- gives for any input up to its maximum, and does not fail for those.
pub record NeverFails (c : Compressors) : Type 0 where
  pub zlib : (xs : List ℕ) → (ys : List ℕ) × (c.zlib_compress xs ≡ ok ys)
  pub lz4 :
      (xs : List ℕ) → length xs ≤ lz4_max_input_size → (ys : List ℕ) × (c.lz4_compress xs ≡ ok ys)

packet_of-eq :
    (p : CommandPacket) (cs : List ProtocolCommand)
    → packet_of p cs ≡ record { commands = p.commands ++ cs }
unfolding packet_of add_command
packet_of-eq p [] = ap (λ (l : List ProtocolCommand). record { commands = l }) (sym (append-nil _))
packet_of-eq p (c ∷ cs) = rw (packet_of-eq (add_command p c) cs, append_assoc p.commands)

pub packet_of-new : (cs : List ProtocolCommand) → packet_of new_packet cs ≡ record { commands = cs }
unfolding new_packet
packet_of-new cs = packet_of-eq new_packet cs

overhead_ge : (a : CompressionAlgorithm) → 1 ≤ bounded_compression_overhead a
unfolding bounded_compression_overhead
overhead_ge no_compression = omega arith
overhead_ge zlib = omega arith
overhead_ge lz4 = omega arith

pub static_overhead_ge : (config : Config) → 2 ≤ static_overhead config
unfolding static_overhead
static_overhead_ge config = omega (arith, overhead_ge config.compression)

module _ (c : Compressors) (never : NeverFails c) where
  compress_succeeds :
      (input buffer : List ℕ) (algorithm : CompressionAlgorithm) (threshold : ℕ)
      → length input ≤ lz4_max_input_size
      → (output : List ℕ) × (compress_with_buffer c input algorithm threshold buffer ≡ ok output)
  unfolding compress_with_buffer compress_by
  compress_succeeds input buffer algorithm threshold small =
      elim (Bool-cases (ltb (length input) threshold)) [
        | inl below ↦ (uncompressed input, rw below refl)
        | inr above ↦ rw above (by algorithm)
      ]
    where
      by : (a : CompressionAlgorithm) → (output : List ℕ) × (compress_by c a input ≡ ok output)
      by no_compression = (uncompressed input, refl)
      by zlib =
          let (ys, e) = never.zlib input in
          elim (Bool-cases (ltb (length ys) (length input))) [
            | inl less ↦ (1 ∷ ys, rw (e, less, compress_by) refl)
            | inr more ↦ (uncompressed input, rw (e, more, compress_by) refl)
          ]
      by lz4 =
          let (ys, e) = never.lz4 input small in
          elim (Bool-cases (ltb (length ys + 4) (length input))) [
            | inl less ↦
                (2 ∷ to_be_bytes (length input % 2 ^ 32) ++ ys, rw (e, less, compress_by) refl)
            | inr more ↦ (uncompressed input, rw (e, more, compress_by) refl)
          ]

module _ ⦃bytes : ByteOrder⦄ (crc32 : List ℕ → ℕ) (c : Compressors) where
  -- Sealing a packet succeeds, adds at most the overhead, and unpacking gives the commands back.
  pub record Sealed (config : Config) (cs : List ProtocolCommand) (out : List ℕ) : Type 0 where
    pub sealed : seal crc32 c config (record { commands = cs }) ≡ ok out
    pub size : length out ≤ static_overhead config + length (framed cs)
    pub unpacked : unpack crc32 c config out ≡ ok (map detach cs)

  module _ (crc32-lt : (xs : List ℕ) → crc32 xs < 2 ^ 32) (lossless : IsLossless c)
      (never : NeverFails c) where
    stripped :
        (use_checksums : Bool) (ys : List ℕ)
        → (let out = if use_checksums then append_checksum_in_place crc32 ys else ys in
            if use_checksums then validate_and_strip_checksum crc32 out else ok out)
          ≡ ok ys
    unfolding append_checksum append_checksum_in_place
    stripped true ys = strip-append crc32 crc32-lt ys
    stripped false ys = refl

    sealed_size :
        (use_checksums : Bool) (ys : List ℕ)
        → length (if use_checksums then append_checksum_in_place crc32 ys else ys)
          ≤ (if use_checksums then 4 else 0) + length ys
    unfolding append_checksum_in_place
    sealed_size true ys = omega (arith, length-append ys (to_be_bytes (crc32 ys)))
    sealed_size false ys = omega arith

    -- What is sealed is the packet's bytes, at most longer by the overhead, and unpacking it gives
    -- the commands, for at most 255 commands that fit and encodings below 2 GiB.
    pub seal-Sealed :
        (config : Config) (cs : List ProtocolCommand)
        → PacketFits (record { commands = cs })
        → length (framed cs) < 2 ^ 30
        → (out : List ℕ) × Sealed config cs out
    unfolding seal unpack static_overhead
    seal-Sealed config cs h small =
        let p : CommandPacket = record { commands = cs } in
        let input = encode_packet_into [] p in
        let whole : input ≡ encode_packet p = encode_packet_into-eq-append [] p in
        let long : length input ≡ suc (length (framed cs)) =
          ap (λ (l : List ℕ). length l) (whole ∙ encode_packet-framed p h) in
        let (ys, e) =
          compress_succeeds c never input [] config.compression config.compression_threshold
            (omega arith) in
        let (back, bound) =
          decompress-compress c lossless input ys [] config.compression config.compression_threshold
            (omega arith) e in
        let decoded = ap decode_packet whole ∙ decode_packet-encode_packet p h in
        let out = if config.use_checksums then append_checksum_in_place crc32 ys else ys in
        (
          out,
          record {
            sealed = rw (seal, e) refl;
            size =
                omega (
                  arith,
                  sealed_size config.use_checksums ys,
                  overhead_ge config.compression,
                  bound,
                );
            unpacked = rw (unpack, stripped config.use_checksums ys, back, decoded) refl;
          },
        )
