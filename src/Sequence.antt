-- ===== src/Sequence.antt =====
-- crates/bitfold-protocol/src/sequence_buffer.rs: the wrapping order of sequence numbers, and the
-- circular buffer of what was received.
pub mod Order
pub mod Buffer
