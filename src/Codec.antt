-- ===== src/Codec.antt =====
-- crates/bitfold-protocol/src/command_codec: commands to bytes and back.
pub mod Bytes
pub mod Encoder
pub mod Decoder
pub mod Wire
pub mod RoundTrip
pub mod Packet
pub mod Checksum
pub mod Compression
