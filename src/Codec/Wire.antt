-- ===== src/Codec/Wire.antt =====
-- The format of a command on the wire, written out byte by byte: what both encoders write and the
-- decoder reads back.
pub mod Encode
pub mod Decode
use bitfold.Prelude.{
  ℕ, ◌+◌, ◌*◌, ◌/◌, ◌%◌, ◌^◌, ◌<◌, ◌≡◌, Bool, true, false, List, [], ◌∷◌, ◌++◌, Option, none, some,
  arith, length,
}
use bitfold.Core.Shared.{SharedBytes, as_slice, from_vec}
use bitfold.Command.{
  ProtocolCommand, send_reliable, send_unreliable, send_unreliable_sequenced, send_unsequenced,
  send_fragment, send_unreliable_fragment, acknowledge, ping, pong, connect, verify_connect,
  disconnect, bandwidth_limit, throttle_configure, pmtu_probe, pmtu_reply, command_type,
}

-- Big-endian, in front of what follows.
abbrev pub be16 : ℕ → List ℕ → List ℕ
be16 v rest = v / 256 ∷ v % 256 ∷ rest

abbrev pub be32 : ℕ → List ℕ → List ℕ
be32 v rest = v / 2 ^ 24 ∷ v / 2 ^ 16 % 256 ∷ v / 256 % 256 ∷ v % 256 ∷ rest

abbrev pub flag : Bool → ℕ
flag true = 1
flag false = 0

abbrev pub sized : SharedBytes → List ℕ
sized d = be16 d.len (as_slice d)

abbrev pub optional_be32 : Option ℕ → List ℕ
optional_be32 none = []
optional_be32 (some t) = be32 t []

-- What follows the command's type.
unfoldable pub wire_fields : ProtocolCommand → List ℕ
wire_fields (send_reliable c s o d) = c ∷ be16 s (flag o ∷ sized d)
wire_fields (send_unreliable c d) = c ∷ sized d
wire_fields (send_unreliable_sequenced c s d) = c ∷ be16 s (sized d)
wire_fields (send_unsequenced c g d) = c ∷ be16 g (sized d)
wire_fields (send_fragment c s o i n d) = c ∷ be16 s (flag o ∷ i ∷ n ∷ sized d)
wire_fields (send_unreliable_fragment c s i n d) = c ∷ be16 s (i ∷ n ∷ sized d)
wire_fields (acknowledge s m t) = be16 s (be32 m (optional_be32 t))
wire_fields (ping t) = be32 t []
wire_fields (pong t) = be32 t []
wire_fields (connect c m v o i) = c ∷ be16 m (be16 v (be16 o (be32 i [])))
wire_fields (verify_connect p c m i o w) = be16 p (c ∷ be16 m (be16 i (be16 o (be32 w []))))
wire_fields (disconnect r) = be32 r []
wire_fields (bandwidth_limit i o) = be32 i (be32 o [])
wire_fields (throttle_configure i a d) = be32 i (be32 a (be32 d []))
wire_fields (pmtu_probe s t d) = be16 s (be32 t (sized d))
wire_fields (pmtu_reply s t) = be16 s (be32 t [])

unfoldable pub wire : ProtocolCommand → List ℕ
wire command = command_type command ∷ wire_fields command

-- A command whose payload stands in a buffer of its own, as the decoder makes it.
abbrev pub owned : SharedBytes → SharedBytes
owned d = from_vec (as_slice d)

unfoldable pub detach : ProtocolCommand → ProtocolCommand
detach (send_reliable c s o d) = send_reliable c s o (owned d)
detach (send_unreliable c d) = send_unreliable c (owned d)
detach (send_unreliable_sequenced c s d) = send_unreliable_sequenced c s (owned d)
detach (send_unsequenced c g d) = send_unsequenced c g (owned d)
detach (send_fragment c s o i n d) = send_fragment c s o i n (owned d)
detach (send_unreliable_fragment c s i n d) = send_unreliable_fragment c s i n (owned d)
detach (pmtu_probe s t d) = pmtu_probe s t (owned d)
detach c = c
