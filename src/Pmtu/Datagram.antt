-- ===== src/Pmtu/Datagram.antt =====
-- The datagram that carries a probe, and the replies.
use bitfold.Prelude.{ℕ, ◌+◌, ◌/◌, ◌<◌, ◌≡◌, refl, List, some, arith, length, min}
use bitfold.Core.Config.{Config, CompressionAlgorithm, lz4}
use bitfold.Core.Shared.{from_vec, as_slice-from_vec}
use bitfold.Command.{ProtocolCommand, pmtu_probe}
use bitfold.Codec.Wire.{wire, wire_fields}
use bitfold.Fragment.Plan.{per_packet_overhead, compression_overhead}
use bitfold.Pmtu.{
  PmtuDiscovery, datagram_cap, total_overhead, probe_compression_overhead, probe_payload_len,
  send_probe,
}

same_overhead : (a : CompressionAlgorithm) → probe_compression_overhead a ≡ compression_overhead a
unfolding probe_compression_overhead compression_overhead
same_overhead lz4 = refl
same_overhead _ = refl

-- A probe for a size above the overhead makes a datagram of exactly that size: the encoding of the
-- command, its length prefix and the overhead of a datagram with one command add up to it.
pub probe_datagram_size :
    (config : Config) (p : PmtuDiscovery) (time token : ℕ) (fill : ℕ → List ℕ)
    → ((n : ℕ) → length (fill n) ≡ n)
    → total_overhead config < min ((p.low + p.high) / 2) (datagram_cap config)
    → (c : ProtocolCommand) × ((send_probe config p time token fill).0 ≡ some c)
      × (per_packet_overhead config + 2 + length (wire c)
          ≡ min ((p.low + p.high) / 2) (datagram_cap config))
unfolding send_probe total_overhead per_packet_overhead probe_payload_len wire wire_fields
probe_datagram_size config p time token fill full big =
    let target = min ((p.low + p.high) / 2) (datagram_cap config) in
    let payload = fill (probe_payload_len config target) in
    (
      pmtu_probe target token (from_vec payload),
      refl,
      ground (
        arith,
        as_slice-from_vec payload,
        full (probe_payload_len config target),
        same_overhead config.compression,
      ),
    )
