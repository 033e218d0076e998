-- ===== src/Core/Error.antt =====
-- crates/bitfold-core/src/error.rs: the errors of the stack and its `Result`. The texts that errors
-- carry are not modelled.
use bitfold.Codec.Bytes.{IoError}

pub data DecodingErrorKind : Type 0 where
  packet_type ordering_guarantee delivery_guarantee : DecodingErrorKind

-- `FragmentError` and `PacketError` are made by no modelled code.
pub data ErrorKind : Type 0 where
  decoding_error : DecodingErrorKind → ErrorKind
  io_error : IoError → ErrorKind
  received_data_to_short protocol_version_mismatch could_not_read_header : ErrorKind

pub data Outcome {ℓ} (A : Type ℓ) : Type ℓ where
  done : A → Outcome A
  failed : ErrorKind → Outcome A
