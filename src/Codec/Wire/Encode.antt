-- ===== src/Codec/Wire/Encode.antt =====
-- Both encoders write the wire format.
use bitfold.Prelude.{
  ℕ, ◌/◌, ◌%◌, ◌^◌, ◌<◌, ◌≡◌, Bool, true, false, List, [], ◌∷◌, ◌++◌, none, some, arith,
  append_assoc, if◌then◌else◌, ◌∙◌,
}
use bitfold.Core.Shared.{SharedBytes}
use bitfold.Command.{
  ProtocolCommand, send_reliable, send_unreliable, send_unreliable_sequenced, send_unsequenced,
  send_fragment, send_unreliable_fragment, acknowledge, ping, pong, connect, verify_connect,
  disconnect, bandwidth_limit, throttle_configure, pmtu_probe, pmtu_reply, command_type, Fits,
  Carries,
}
use bitfold.Codec.Bytes.{ByteOrder}
use bitfold.Codec.Encoder.{encode_fields_into, encode_command_into, encode_fields, encode_command}
use bitfold.Codec.Wire.{wire, wire_fields, flag}

short_len : {d : SharedBytes} → Carries d → d.len % 65536 ≡ d.len
short_len h = omega arith

module _ ⦃bytes : ByteOrder⦄ where
  u8_bytes : (v : ℕ) → v < 256 → bytes.u8 v ≡ v ∷ []
  u8_bytes = bytes.u8_lem

  u16_bytes : (v : ℕ) → v < 65536 → bytes.u16 v ≡ v / 256 ∷ v % 256 ∷ []
  u16_bytes = bytes.u16_lem

  u32_bytes :
      (v : ℕ)
      → v < 2 ^ 32
      → bytes.u32 v ≡ v / 2 ^ 24 ∷ v / 2 ^ 16 % 256 ∷ v / 256 % 256 ∷ v % 256 ∷ []
  u32_bytes = bytes.u32_lem

  flag_bytes : (o : Bool) → bytes.u8 (if o then 1 else 0) ≡ flag o ∷ []
  flag_bytes true = bytes.u8_lem 1 (omega arith)
  flag_bytes false = bytes.u8_lem 0 (omega arith)

  command_type-lt : (c : ProtocolCommand) → command_type c < 256
  unfolding command_type
  command_type-lt (send_reliable _ _ _ _) = omega arith
  command_type-lt c = omega arith

  type_bytes : (c : ProtocolCommand) → bytes.u8 (command_type c) ≡ command_type c ∷ []
  type_bytes c = bytes.u8_lem (command_type c) (command_type-lt c)

ruleset writes = (append_assoc, u8_bytes, u16_bytes, u32_bytes, flag_bytes)

module _ ⦃bytes : ByteOrder⦄ where
  encode_fields_into-wire :
      (buffer : List ℕ) (c : ProtocolCommand)
      → Fits c
      → encode_fields_into buffer c ≡ buffer ++ wire_fields c
  unfolding encode_fields_into wire_fields
  encode_fields_into-wire buffer (send_reliable c s o d) (hc, hs, hd) =
      simp (writes, hc, hs, short_len hd, hd.short)
  encode_fields_into-wire buffer (send_unreliable c d) (hc, hd) =
      simp (writes, hc, short_len hd, hd.short)
  encode_fields_into-wire buffer (send_unreliable_sequenced c s d) (hc, hs, hd) =
      simp (writes, hc, hs, short_len hd, hd.short)
  encode_fields_into-wire buffer (send_unsequenced c g d) (hc, hg, hd) =
      simp (writes, hc, hg, short_len hd, hd.short)
  encode_fields_into-wire buffer (send_fragment c s o i n d) (hc, hs, hi, hn, hd) =
      simp (writes, hc, hs, hi, hn, short_len hd, hd.short)
  encode_fields_into-wire buffer (send_unreliable_fragment c s i n d) (hc, hs, hi, hn, hd) =
      simp (writes, hc, hs, hi, hn, short_len hd, hd.short)
  encode_fields_into-wire buffer (acknowledge s m none) (hs, hm, _) = simp (writes, hs, hm)
  encode_fields_into-wire buffer (acknowledge s m (some t)) (hs, hm, ht) = simp (writes, hs, hm, ht)
  encode_fields_into-wire buffer (ping t) ht = simp (writes, ht)
  encode_fields_into-wire buffer (pong t) ht = simp (writes, ht)
  encode_fields_into-wire buffer (connect c m v o i) (hc, hm, hv, ho, hi) =
      simp (writes, hc, hm, hv, ho, hi)
  encode_fields_into-wire buffer (verify_connect p c m i o w) (hp, hc, hm, hi, ho, hw) =
      simp (writes, hp, hc, hm, hi, ho, hw)
  encode_fields_into-wire buffer (disconnect r) hr = simp (writes, hr)
  encode_fields_into-wire buffer (bandwidth_limit i o) (hi, ho) = simp (writes, hi, ho)
  encode_fields_into-wire buffer (throttle_configure i a d) (hi, ha, hd) = simp (writes, hi, ha, hd)
  encode_fields_into-wire buffer (pmtu_probe s t d) (hs, ht, hd) =
      simp (writes, hs, ht, short_len hd, hd.short)
  encode_fields_into-wire buffer (pmtu_reply s t) (hs, ht) = simp (writes, hs, ht)

  encode_fields-wire :
      (buffer : List ℕ) (c : ProtocolCommand)
      → Fits c
      → encode_fields buffer c ≡ buffer ++ wire_fields c
  unfolding encode_fields wire_fields
  encode_fields-wire buffer (send_reliable c s o d) (hc, hs, hd) =
      simp (writes, hc, hs, short_len hd, hd.short)
  encode_fields-wire buffer (send_unreliable c d) (hc, hd) =
      simp (writes, hc, short_len hd, hd.short)
  encode_fields-wire buffer (send_unreliable_sequenced c s d) (hc, hs, hd) =
      simp (writes, hc, hs, short_len hd, hd.short)
  encode_fields-wire buffer (send_unsequenced c g d) (hc, hg, hd) =
      simp (writes, hc, hg, short_len hd, hd.short)
  encode_fields-wire buffer (send_fragment c s o i n d) (hc, hs, hi, hn, hd) =
      simp (writes, hc, hs, hi, hn, short_len hd, hd.short)
  encode_fields-wire buffer (send_unreliable_fragment c s i n d) (hc, hs, hi, hn, hd) =
      simp (writes, hc, hs, hi, hn, short_len hd, hd.short)
  encode_fields-wire buffer (acknowledge s m none) (hs, hm, _) = simp (writes, hs, hm)
  encode_fields-wire buffer (acknowledge s m (some t)) (hs, hm, ht) = simp (writes, hs, hm, ht)
  encode_fields-wire buffer (ping t) ht = simp (writes, ht)
  encode_fields-wire buffer (pong t) ht = simp (writes, ht)
  encode_fields-wire buffer (connect c m v o i) (hc, hm, hv, ho, hi) =
      simp (writes, hc, hm, hv, ho, hi)
  encode_fields-wire buffer (verify_connect p c m i o w) (hp, hc, hm, hi, ho, hw) =
      simp (writes, hp, hc, hm, hi, ho, hw)
  encode_fields-wire buffer (disconnect r) hr = simp (writes, hr)
  encode_fields-wire buffer (bandwidth_limit i o) (hi, ho) = simp (writes, hi, ho)
  encode_fields-wire buffer (throttle_configure i a d) (hi, ha, hd) = simp (writes, hi, ha, hd)
  encode_fields-wire buffer (pmtu_probe s t d) (hs, ht, hd) =
      simp (writes, hs, ht, short_len hd, hd.short)
  encode_fields-wire buffer (pmtu_reply s t) (hs, ht) = simp (writes, hs, ht)

  -- `encode_command_into` appends the wire format of a command whose fields are in range.
  pub encode_command_into-wire :
      (buffer : List ℕ) (c : ProtocolCommand)
      → Fits c
      → encode_command_into buffer c ≡ buffer ++ wire c
  unfolding encode_command_into wire
  encode_command_into-wire buffer c h =
      encode_fields_into-wire _ c h ∙ rw (type_bytes c) (append_assoc buffer _ _)

  pub encode_command-wire : (c : ProtocolCommand) → Fits c → encode_command c ≡ wire c
  unfolding encode_command wire
  encode_command-wire c h = encode_fields-wire _ c h ∙ rw (type_bytes c)
