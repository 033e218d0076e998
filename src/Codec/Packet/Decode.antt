-- ===== src/Codec/Packet/Decode.antt =====
-- `decode_packet` undoes `encode_packet`.
use bitfold.Prelude.{
  ℕ, ◌≤◌, ◌≡◌, List, [], ◌∷◌, ◌++◌, map, arith, length, take-append, drop-append, append_assoc,
  append-nil, ap, sym, length-append, le→ltb,
}
use bitfold.Command.{ProtocolCommand, CommandPacket, new_packet, add_command, Fits}
use bitfold.Codec.Bytes.{ByteOrder, ok}
use bitfold.Codec.Encoder.{encode_packet}
use bitfold.Codec.Decoder.{decode_sliced, decode_commands, read_packet, decode_packet}
use bitfold.Codec.Wire.{wire, detach}
use bitfold.Codec.Wire.Decode.{decode_command-wire, read_be16}
use bitfold.Codec.Packet.{framed, AllFit, PacketFits}
use bitfold.Codec.Packet.Encode.{encode_packet-framed}

module _ ⦃bytes : ByteOrder⦄ where
  -- A command behind its length prefix is read up to the prefix's end.
  pub decode_sliced-wire :
      (c : ProtocolCommand) (rest : List ℕ)
      → Fits c
      → decode_sliced (length (wire c)) (wire c ++ rest) ≡ ok (detach c, rest)
  unfolding decode_sliced
  decode_sliced-wire c rest h =
      let enough : length (wire c) ≤ length (wire c ++ rest) =
        omega (arith, length-append (wire c) rest) in
      rw (
        le→ltb (length (wire c ++ rest)) (length (wire c)) enough,
        take-append (wire c) rest,
        drop-append (wire c) rest,
        decode_command-wire c h,
      )

  decode_commands-framed :
      (cs : List ProtocolCommand) (p : CommandPacket) (rest : List ℕ)
      → AllFit cs
      → decode_commands (length cs) p (framed cs ++ rest)
        ≡ ok (record { commands = p.commands ++ map detach cs }, rest)
  unfolding decode_commands framed add_command
  decode_commands-framed [] p rest h =
      ap (λ (l : List ProtocolCommand). ok (record { commands = l }, rest)) (sym (append-nil _))
  decode_commands-framed (c ∷ cs) p rest (hc, hl, hs) = rw (
    read_be16 (length (wire c)) ((wire c ++ framed cs) ++ rest),
    append_assoc (wire c) (framed cs) rest,
    decode_sliced-wire c (framed cs ++ rest) hc,
    decode_commands-framed cs (add_command p (detach c)) rest hs,
    append_assoc p.commands,
  )

  -- Decoding the encoding of a packet gives its commands back in order, each payload in a buffer of
  -- its own, for at most 255 commands with fields in range and encodings shorter than 65536 bytes.
  pub decode_packet-encode_packet :
      (p : CommandPacket)
      → PacketFits p
      → decode_packet (encode_packet p) ≡ ok (record { commands = map detach p.commands })
  unfolding decode_packet read_packet new_packet
  decode_packet-encode_packet p h = rw (
    encode_packet-framed p h,
    bytes.read_u8_lem (length p.commands) (framed p.commands),
    ← append-nil (framed p.commands),
    decode_commands-framed p.commands new_packet [] h.each,
  )
