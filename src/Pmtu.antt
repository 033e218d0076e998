-- ===== src/Pmtu.antt =====
-- crates/bitfold-peer/src/pmtu_discovery.rs: the search for the largest datagram. The random token
-- and the bytes that fill a probe are arguments.
pub mod Search
pub mod Datagram
use bitfold.Prelude.{
  ℕ, ◌+◌, ◌-◌, ◌*◌, ◌/◌, Bool, true, false, not, List, Option, none, some, ltb, leb, ◌==◌,
  if◌then◌else◌, min, max,
}
use bitfold.Core.Config.{Config, CompressionAlgorithm, no_compression, zlib, lz4}
use bitfold.Core.Shared.{SharedBytes, from_vec}
use bitfold.Core.Time.{duration_since, from_millis}
use bitfold.Command.{ProtocolCommand, pmtu_probe, pmtu_reply}

-- The size, the token and the time of a probe.
pub record Probe : Type 0 where
  pub size : ℕ
  pub token : ℕ
  pub sent : ℕ

-- The configuration that the source keeps in the object is an argument here.
pub record PmtuDiscovery : Type 0 where
  pub fragment_size : ℕ
  pub low : ℕ
  pub high : ℕ
  pub last_probe : ℕ
  pub outstanding : Option Probe

unfoldable pub new : Config → ℕ → PmtuDiscovery
new config time = record {
  fragment_size = config.fragment_size;
  low = config.pmtu_min;
  high = config.pmtu_max;
  last_probe = time;
  outstanding = none;
}

-- The first part: a probe that is outstanding, and may have timed out.
unfoldable pub await_probe : PmtuDiscovery → Probe → ℕ → ℕ → PmtuDiscovery
await_probe p probe time rto =
    let timeout = max rto (from_millis 200) in
    if ltb timeout (duration_since time probe.sent)
    then record p {
      high = (if ltb 0 probe.size then min p.high (probe.size - 1) else p.high);
      last_probe = time;
      outstanding = none;
    }
    else p

abbrev pub datagram_cap : Config → ℕ
datagram_cap config = min config.receive_buffer_max_size 65535

unfoldable pub clamp_high : Config → PmtuDiscovery → PmtuDiscovery
clamp_high config p = record p {
  high = (if ltb (datagram_cap config) p.high then datagram_cap config else p.high);
}

-- What the datagram holds beside the payload of the probe.
unfoldable pub probe_compression_overhead : CompressionAlgorithm → ℕ
probe_compression_overhead lz4 = 5
probe_compression_overhead _ = 1

unfoldable pub total_overhead : Config → ℕ
unfolding probe_compression_overhead
total_overhead config =
    let compression_overhead = probe_compression_overhead config.compression in
    let checksum_overhead = if config.use_checksums then 4 else 0 in
    let static_overhead = 1 + compression_overhead + checksum_overhead in
    static_overhead + (2 + (1 + 2 + 4 + 2))

unfoldable pub probe_payload_len : Config → ℕ → ℕ
probe_payload_len config target =
    let overhead = total_overhead config in
    if ltb overhead target then max (target - overhead) 1 else 1

-- The last part: a new probe in the middle between the bounds.
unfoldable pub send_probe :
    Config → PmtuDiscovery → ℕ → ℕ → (ℕ → List ℕ) → Option ProtocolCommand × PmtuDiscovery
send_probe config p time token fill =
    let mid = (p.low + p.high) / 2 in
    let target = min mid (datagram_cap config) in
    (
      some (pmtu_probe target token (from_vec (fill (probe_payload_len config target)))),
      record p {
        outstanding = some (record { size = mid; token = token; sent = time });
        last_probe = time;
      },
    )

-- What follows when no probe is outstanding.
unfoldable pub probe_if_due :
    Config → PmtuDiscovery → ℕ → ℕ → (ℕ → List ℕ) → Option ProtocolCommand × PmtuDiscovery
unfolding clamp_high
probe_if_due config q time token fill =
    let p = clamp_high config q in
    if leb (p.high - p.low) config.pmtu_converge_threshold
    then (none, record p { fragment_size = p.low })
    else if ltb (duration_since time p.last_probe) (from_millis config.pmtu_interval_ms)
    then (none, p)
    else send_probe config p time token fill

unfoldable pub handle_pmtu :
    Config → PmtuDiscovery → ℕ → ℕ → ℕ → (ℕ → List ℕ) → Option ProtocolCommand × PmtuDiscovery
handle_pmtu config p time rto token fill =
    if not config.use_pmtu_discovery then (none, p) else elim p.outstanding [
      | some probe ↦ (none, await_probe p probe time rto)
      | none ↦ probe_if_due config p time token fill
    ]

unfoldable pub accept_reply : PmtuDiscovery → ℕ → ℕ → PmtuDiscovery
accept_reply p size time = record p {
  low = max p.low size;
  fragment_size = max p.low size;
  outstanding = none;
  last_probe = time;
}

-- Whether the reply was valid, and the state.
unfoldable pub process_reply : PmtuDiscovery → ℕ → ℕ → ℕ → Bool × PmtuDiscovery
process_reply p size token time = elim p.outstanding [
  | none ↦ (false, p)
  | some probe ↦ if probe.token == token then (true, accept_reply p size time) else (false, p)
]

unfoldable pub create_reply : ℕ → ℕ → ProtocolCommand
create_reply size token = pmtu_reply size token

unfoldable pub set_fragment_size : PmtuDiscovery → ℕ → PmtuDiscovery
set_fragment_size p size = record p { fragment_size = size }
