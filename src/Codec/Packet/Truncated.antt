-- ===== src/Codec/Packet/Truncated.antt =====
-- A datagram that ends early is refused.
use bitfold.Prelude.{
  ℕ, zero, suc, ◌+◌, ◌-◌, ◌/◌, ◌<◌, ◌≤◌, ◌≡◌, refl, List, [], ◌∷◌, ◌++◌, arith, length, take, ap,
  length-append, length-take, lt→ltb,
}
use native.Mathlib.Decide.{dec_lt}
use bitfold.Command.{ProtocolCommand, CommandPacket, new_packet, add_command}
use bitfold.Codec.Bytes.{ByteOrder, err, unexpected_eof}
use bitfold.Codec.Encoder.{encode_packet}
use bitfold.Codec.Decoder.{decode_sliced, decode_commands, read_packet, decode_packet}
use bitfold.Codec.Wire.{wire, detach}
use bitfold.Codec.Wire.Decode.{read_be16}
use bitfold.Codec.Packet.{framed, AllFit, PacketFits}
use bitfold.Codec.Packet.Encode.{encode_packet-framed}
use bitfold.Codec.Packet.Decode.{decode_sliced-wire}

take-append-le : (n : ℕ) (xs ys : List ℕ) → n ≤ length xs → take n (xs ++ ys) ≡ take n xs
take-append-le zero xs ys h = refl
take-append-le (suc n) [] ys h = absurd (omega arith)
take-append-le (suc n) (x ∷ xs) ys h = ap (λ r. x ∷ r) (take-append-le n xs ys (omega arith))

take-append-add : (xs ys : List ℕ) (n : ℕ) → take (length xs + n) (xs ++ ys) ≡ xs ++ take n ys
take-append-add [] ys n = ap (λ k. take k ys) (omega arith)
take-append-add (x ∷ xs) ys n =
    let shift : suc (length xs) + n ≡ suc (length xs + n) = omega arith in
    rw shift (ap (λ r. x ∷ r) (take-append-add xs ys n))

module _ ⦃bytes : ByteOrder⦄ where
  decode_sliced-short : (n : ℕ) (s : List ℕ) → length s < n → decode_sliced n s ≡ err unexpected_eof
  unfolding decode_sliced
  decode_sliced-short n s h = rw (lt→ltb (length s) n h)

  decode_commands-cut :
      (cs : List ProtocolCommand) (p : CommandPacket) (n : ℕ)
      → AllFit cs
      → n < length (framed cs)
      → decode_commands (length cs) p (take n (framed cs)) ≡ err unexpected_eof
  unfolding decode_commands framed
  decode_commands-cut [] p n hs h = absurd (omega arith)
  decode_commands-cut (c ∷ cs) p zero hs h = rw (bytes.read_u16_eof [] (omega arith))
  decode_commands-cut (c ∷ cs) p (suc zero) hs h =
      rw (bytes.read_u16_eof (length (wire c) / 256 ∷ []) (omega arith))
  decode_commands-cut (c ∷ cs) p (suc (suc n)) (hc, hl, hs) h = elim (dec_lt n (length (wire c))) [
    | yes short ↦ rw (
      read_be16 (length (wire c)) (take n (wire c ++ framed cs)),
      decode_sliced-short (length (wire c)) (take n (wire c ++ framed cs))
          (omega (arith, length-take n (wire c ++ framed cs))),
    )
    | no long ↦
        let m = n - length (wire c) in
        let e : n ≡ length (wire c) + m = omega arith in
        let less : m < length (framed cs) = omega (arith, length-append (wire c) (framed cs)) in
        rw (
          read_be16 (length (wire c)) (take n (wire c ++ framed cs)),
          e,
          take-append-add (wire c) (framed cs) m,
          decode_sliced-wire c (take m (framed cs)) hc,
          decode_commands-cut cs (add_command p (detach c)) m hs less,
        )
  ]

  -- Every strict prefix of an encoded packet is refused with `UnexpectedEof`, under the same bounds:
  -- no command is made up or lost in silence.
  pub decode_packet-take :
      (p : CommandPacket) (n : ℕ)
      → PacketFits p
      → n < length (encode_packet p)
      → decode_packet (take n (encode_packet p)) ≡ err unexpected_eof
  unfolding decode_packet read_packet
  decode_packet-take p n h cut =
      rw (encode_packet-framed p h) (cut_at n (rw (encode_packet-framed p h) at cut))
    where
      cut_at :
          (n : ℕ)
          → n < length (length p.commands ∷ framed p.commands)
          → decode_packet (take n (length p.commands ∷ framed p.commands)) ≡ err unexpected_eof
      cut_at zero h = rw bytes.read_u8_eof
      cut_at (suc n) less = rw (
        bytes.read_u8_lem (length p.commands) (take n (framed p.commands)),
        decode_commands-cut p.commands new_packet n h.each (omega arith),
      )
