-- ===== src/Codec/Packet/Encode.antt =====
-- The two packet encoders: by patching the lengths in place, and by encoding each command apart.
use bitfold.Prelude.{
  ℕ, suc, ◌+◌, ◌-◌, ◌/◌, ◌%◌, ◌^◌, ◌≡◌, refl, List, [], ◌∷◌, ◌++◌, arith, length, append_assoc,
  append-nil, ap, ◌∙◌, sym, length-append,
}
use bitfold.Command.{ProtocolCommand, CommandPacket}
use bitfold.Codec.Bytes.{ByteOrder}
use bitfold.Codec.Encoder.{
  encode_command, patch_length, encode_prefixed_into, encode_commands_into, encode_packet_into,
  encode_prefixed, encode_commands, encode_packet,
}
use bitfold.Codec.RoundTrip.{encode_command_into-eq-append}
use bitfold.Codec.Wire.{wire}
use bitfold.Codec.Wire.Encode.{encode_command-wire}
use bitfold.Codec.Packet.{framed, AllFit, PacketFits}

patch_length_lem :
    (buffer rest : List ℕ) (a b n : ℕ)
    → patch_length (buffer ++ (a ∷ b ∷ rest)) (length buffer) n
      ≡ buffer ++ (n / 2 ^ 8 % 256 ∷ n % 256 ∷ rest)
unfolding patch_length
patch_length_lem [] rest a b n = refl
patch_length_lem (x ∷ buffer) rest a b n =
    let shift : suc (length buffer) + 1 ≡ suc (length buffer + 1) = omega arith in
    rw shift (ap (λ r. x ∷ r) (patch_length_lem buffer rest a b n))

module _ ⦃bytes : ByteOrder⦄ where
  length_bytes : (n : ℕ) → bytes.u16 (n % 2 ^ 16) ≡ n / 2 ^ 8 % 256 ∷ n % 256 ∷ []
  length_bytes n =
      let high : n % 65536 / 256 ≡ n / 256 % 256 = omega arith in
      let low : n % 65536 % 256 ≡ n % 256 = omega arith in
      rw (bytes.u16_lem (n % 2 ^ 16) (omega arith), high, low)

  encode_prefixed_into-eq :
      (buffer : List ℕ) (c : ProtocolCommand)
      → encode_prefixed_into buffer c ≡ encode_prefixed buffer c
  unfolding encode_prefixed_into encode_prefixed
  encode_prefixed_into-eq buffer c =
      let e = encode_command c in
      let size : length (buffer ++ (0 ∷ 0 ∷ e)) - length (buffer ++ 0 ∷ 0 ∷ []) ≡ length e =
        omega (arith, length-append buffer (0 ∷ 0 ∷ e), length-append buffer (0 ∷ 0 ∷ [])) in
      rw (
        encode_command_into-eq-append (buffer ++ bytes.u16 0) c,
        bytes.u16_lem 0 (omega arith),
        append_assoc buffer (0 ∷ 0 ∷ []) e,
        size,
        patch_length_lem buffer e 0 0 (length e),
        length_bytes (length e),
        append_assoc buffer,
      )

  pub encode_commands_into-eq :
      (buffer : List ℕ) (cs : List ProtocolCommand)
      → encode_commands_into buffer cs ≡ encode_commands buffer cs
  unfolding encode_commands_into encode_commands
  encode_commands_into-eq buffer [] = refl
  encode_commands_into-eq buffer (c ∷ cs) =
      rw (encode_prefixed_into-eq buffer c) (encode_commands_into-eq (encode_prefixed buffer c) cs)

  encode_prefixed-append :
      (a b : List ℕ) (c : ProtocolCommand) → encode_prefixed (a ++ b) c ≡ a ++ encode_prefixed b c
  unfolding encode_prefixed
  encode_prefixed-append a b c = simp append_assoc

  encode_commands-append :
      (a b : List ℕ) (cs : List ProtocolCommand)
      → encode_commands (a ++ b) cs ≡ a ++ encode_commands b cs
  unfolding encode_commands
  encode_commands-append a b [] = refl
  encode_commands-append a b (c ∷ cs) =
      rw (encode_prefixed-append a b c) (encode_commands-append a (encode_prefixed b c) cs)

  -- Encoding a packet into a buffer appends what encoding the packet alone gives, for every packet:
  -- the lengths patched in place are those written first.
  pub encode_packet_into-eq-append :
      (buffer : List ℕ) (p : CommandPacket)
      → encode_packet_into buffer p ≡ buffer ++ encode_packet p
  unfolding encode_packet_into encode_packet
  encode_packet_into-eq-append buffer p =
      encode_commands_into-eq _ p.commands ∙ encode_commands-append buffer _ p.commands

  pub encode_commands-framed :
      (buffer : List ℕ) (cs : List ProtocolCommand)
      → AllFit cs
      → encode_commands buffer cs ≡ buffer ++ framed cs
  unfolding encode_commands encode_prefixed framed
  encode_commands-framed buffer [] h = sym (append-nil buffer)
  encode_commands-framed buffer (c ∷ cs) (hc, hl, hs) =
      let n = length (wire c) in
      let short : n % 65536 ≡ n = omega (arith, hl) in
      encode_commands-framed (encode_prefixed buffer c) cs hs
      ∙ rw (
        encode_command-wire c hc,
        short,
        bytes.u16_lem n hl,
        append_assoc buffer,
        append_assoc buffer,
      )

  pub encode_packet-framed :
      (p : CommandPacket) → PacketFits p → encode_packet p ≡ length p.commands ∷ framed p.commands
  unfolding encode_packet
  encode_packet-framed p h =
      let count : length p.commands % 256 ≡ length p.commands = omega (arith, h.count) in
      encode_commands-framed _ p.commands h.each
      ∙ rw (count, bytes.u8_lem (length p.commands) h.count)
