-- ===== src/Peer/Encode/Oversized.antt =====
-- A first command that does not fit.
use bitfold.Prelude.{
  ℕ, ◌+◌, ◌<◌, ◌≡◌, refl, List, ◌∷◌, none, arith, length, Bool-cases, inl, inr, lt→ltb, ap, ◌∙◌,
}
use bitfold.Core.Float.{Float}
use bitfold.Command.{ProtocolCommand, Fits}
use bitfold.Codec.Bytes.{ByteOrder, ok}
use bitfold.Codec.Compression.{Compressors}
use bitfold.Codec.Wire.{wire}
use bitfold.Codec.Wire.Encode.{encode_command-wire}
use bitfold.Peer.{Peer, has_queued_commands}
use bitfold.Peer.Encode.{size_limit, static_overhead, select, encode_queued_commands_bounded}
use bitfold.Peer.Encode.Transmit.{queued}

module _ ⦃bytes : ByteOrder⦄ where
  select_none :
      (limit overhead : ℕ) (first : ProtocolCommand) (others : List ProtocolCommand)
      → Fits first
      → limit < overhead + 2 + length (wire first)
      → select limit overhead 0 (first ∷ others) ≡ 0
  unfolding select
  select_none limit overhead first others fit large =
      rw
        (
          encode_command-wire first fit,
          lt→ltb limit (overhead + 0 + (2 + length (wire first))) (omega arith),
        )
        refl

module _ {float : Float} ⦃bytes : ByteOrder⦄ (crc32 : List ℕ → ℕ) (c : Compressors) where
  -- When the first command of the queue is too large for a datagram, nothing is sent, and nothing of
  -- the peer changes: the commands behind it wait as well, however small they are.
  pub oversized_first_blocks :
      (p : Peer float) (first : ProtocolCommand) (others : List ProtocolCommand) (max_size : ℕ)
      → queued p ≡ first ∷ others
      → Fits first
      → size_limit p.config (queued p) max_size < static_overhead p.config + 2 + length (wire first)
      → encode_queued_commands_bounded crc32 c p max_size ≡ (ok none, p)
  unfolding encode_queued_commands_bounded
  oversized_first_blocks p first others max_size e fit large =
      let limit = size_limit p.config (queued p) max_size in
      let none_fits : select limit (static_overhead p.config) 0 (queued p) ≡ 0 =
        ap (select limit (static_overhead p.config) 0) e
        ∙ select_none limit (static_overhead p.config) first others fit large in
      elim (Bool-cases (has_queued_commands p)) [
        | inr empty ↦ rw (encode_queued_commands_bounded, empty) refl
        | inl some_queued ↦ rw (encode_queued_commands_bounded, some_queued, none_fits) refl
      ]
