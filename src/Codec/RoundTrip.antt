-- ===== src/Codec/RoundTrip.antt =====
-- The entry points of the codec for one command: they agree, and decoding undoes encoding.
use bitfold.Prelude.{ℕ, ◌≡◌, List, [], ◌++◌, none, some, append_assoc, ap, ◌∙◌}
use bitfold.Command.{ProtocolCommand, acknowledge, command_type, Fits}
use bitfold.Codec.Bytes.{ByteOrder, ok}
use bitfold.Codec.Encoder.{encode_fields_into, encode_command_into, encode_fields, encode_command}
use bitfold.Codec.Decoder.{decode_command}
use bitfold.Codec.Wire.{detach}
use bitfold.Codec.Wire.Encode.{encode_command-wire}
use bitfold.Codec.Wire.Decode.{decode_command-wire}

module _ ⦃bytes : ByteOrder⦄ where
  encode_fields-prefix :
      (a b : List ℕ) (c : ProtocolCommand) → encode_fields_into (a ++ b) c ≡ a ++ encode_fields b c
  unfolding encode_fields encode_fields_into
  encode_fields-prefix a b (acknowledge s m none) = simp append_assoc
  encode_fields-prefix a b (acknowledge s m (some t)) = simp append_assoc
  encode_fields-prefix a b c = simp append_assoc

  -- Encoding into a buffer appends what encoding alone gives, for every command: the two copies of
  -- the match in the source write the same bytes.
  pub encode_command_into-eq-append :
      (buffer : List ℕ) (c : ProtocolCommand)
      → encode_command_into buffer c ≡ buffer ++ encode_command c
  unfolding encode_command_into encode_command
  encode_command_into-eq-append buffer c = encode_fields-prefix buffer (bytes.u8 (command_type c)) c

  -- For a command whose fields lie in the range of their types, decoding its encoding gives the
  -- command back, its payload in a buffer of its own, and leaves no byte unread.
  pub decode_command-encode_command :
      (c : ProtocolCommand) → Fits c → decode_command (encode_command c) ≡ ok (detach c, [])
  decode_command-encode_command c h =
      ap decode_command (encode_command-wire c h) ∙ decode_command-wire c h
