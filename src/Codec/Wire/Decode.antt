-- ===== src/Codec/Wire/Decode.antt =====
-- The decoder reads back the wire format.
use bitfold.Prelude.{
  ℕ, ◌+◌, ◌*◌, ◌/◌, ◌%◌, ◌^◌, ◌≡◌, refl, Bool, true, false, List, [], ◌∷◌, none, some, arith,
  length, ap, ◌∙◌, ◌!=◌, take_all, drop_all,
}
use bitfold.Core.Shared.{SharedBytes, as_slice, length-as_slice}
use bitfold.Command.{
  ProtocolCommand, send_reliable, send_unreliable, send_unreliable_sequenced, send_unsequenced,
  send_fragment, send_unreliable_fragment, acknowledge, ping, pong, connect, verify_connect,
  disconnect, bandwidth_limit, throttle_configure, pmtu_probe, pmtu_reply, command_type, Fits,
  Carries,
}
use bitfold.Codec.Bytes.{ByteOrder, ok, read_exact}
use bitfold.Codec.Decoder.{
  decode_send_reliable, decode_send_unreliable, decode_send_unreliable_sequenced,
  decode_send_unsequenced, decode_send_fragment, decode_send_unreliable_fragment, read_time,
  decode_acknowledge, decode_ping, decode_pong, decode_connect, decode_verify_connect,
  decode_disconnect, decode_bandwidth_limit, decode_throttle_configure, decode_pmtu_probe,
  decode_pmtu_reply, decode_fields, decode_command,
}
use bitfold.Codec.Wire.{wire, wire_fields, flag, detach}

from_hi_lo : (v : ℕ) → v / 256 * 256 + v % 256 ≡ v
from_hi_lo v = omega arith

from_quarters :
    (v : ℕ) → v / 16777216 * 16777216 + v / 65536 % 256 * 65536 + v / 256 % 256 * 256 + v % 256 ≡ v
from_quarters v = omega arith

flag_back : (o : Bool) → (flag o != 0) ≡ o
flag_back true = refl
flag_back false = refl

read_exact_all : (n : ℕ) (xs : List ℕ) → length xs ≡ n → read_exact n xs ≡ ok (xs, [])
unfolding read_exact
read_exact_all n xs e = ground (arith, take_all n xs (omega arith), drop_all n xs (omega arith))

payload_back : (d : SharedBytes) → Carries d → read_exact d.len (as_slice d) ≡ ok (as_slice d, [])
payload_back d h = read_exact_all d.len (as_slice d) (length-as_slice h.view)

module _ ⦃bytes : ByteOrder⦄ where
  read_u8_bytes : (a : ℕ) (s : List ℕ) → bytes.read_u8 (a ∷ s) ≡ ok (a, s)
  read_u8_bytes = bytes.read_u8_lem

  pub read_be16 : (v : ℕ) (s : List ℕ) → bytes.read_u16 (v / 256 ∷ v % 256 ∷ s) ≡ ok (v, s)
  read_be16 v s =
      bytes.read_u16_lem (v / 256) (v % 256) s ∙ ap (λ (k : ℕ). ok (k, s)) (from_hi_lo v)

  read_be32 :
      (v : ℕ) (s : List ℕ)
      → bytes.read_u32 (v / 2 ^ 24 ∷ v / 2 ^ 16 % 256 ∷ v / 256 % 256 ∷ v % 256 ∷ s) ≡ ok (v, s)
  read_be32 v s = bytes.read_u32_lem _ _ _ _ s ∙ ap (λ (k : ℕ). ok (k, s)) (from_quarters v)

ruleset reads = (read_u8_bytes, read_be16, read_be32, flag_back)

module _ ⦃bytes : ByteOrder⦄ where
  decode_fields-wire :
      (c : ProtocolCommand)
      → Fits c
      → decode_fields (command_type c) (wire_fields c) ≡ ok (detach c, [])
  unfolding decode_send_reliable decode_send_unreliable decode_send_unreliable_sequenced
      decode_send_unsequenced decode_send_fragment decode_send_unreliable_fragment read_time
      decode_acknowledge decode_ping decode_pong decode_connect decode_verify_connect
      decode_disconnect decode_bandwidth_limit decode_throttle_configure decode_pmtu_probe
      decode_pmtu_reply decode_fields wire_fields command_type detach
  decode_fields-wire (send_reliable c s o d) (_, _, hd) = simp (reads, payload_back d hd)
  decode_fields-wire (send_unreliable c d) (_, hd) = simp (reads, payload_back d hd)
  decode_fields-wire (send_unreliable_sequenced c s d) (_, _, hd) = simp (reads, payload_back d hd)
  decode_fields-wire (send_unsequenced c g d) (_, _, hd) = simp (reads, payload_back d hd)
  decode_fields-wire (send_fragment c s o i n d) (_, _, _, _, hd) = simp (reads, payload_back d hd)
  decode_fields-wire (send_unreliable_fragment c s i n d) (_, _, _, _, hd) =
      simp (reads, payload_back d hd)
  decode_fields-wire (acknowledge s m none) h = simp (reads)
  decode_fields-wire (acknowledge s m (some t)) h = simp (reads)
  decode_fields-wire (ping t) h = simp (reads)
  decode_fields-wire (pong t) h = simp (reads)
  decode_fields-wire (connect c m v o i) h = simp (reads)
  decode_fields-wire (verify_connect p c m i o w) h = simp (reads)
  decode_fields-wire (disconnect r) h = simp (reads)
  decode_fields-wire (bandwidth_limit i o) h = simp (reads)
  decode_fields-wire (throttle_configure i a d) h = simp (reads)
  decode_fields-wire (pmtu_probe s t d) (_, _, hd) = simp (reads, payload_back d hd)
  decode_fields-wire (pmtu_reply s t) h = simp (reads)

  pub decode_command-wire :
      (c : ProtocolCommand) → Fits c → decode_command (wire c) ≡ ok (detach c, [])
  unfolding decode_command wire
  decode_command-wire c h = rw (read_u8_bytes _ (wire_fields c)) (decode_fields-wire c h)
