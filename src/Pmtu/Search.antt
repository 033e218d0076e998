-- ===== src/Pmtu/Search.antt =====
-- The binary search for the largest datagram: its bounds, and what replies and timeouts do to them.
use bitfold.Prelude.{ℕ, ◌-◌, ◌≤◌, ◌<◌, ◌≡◌, true, List, none, some, arith, max}
use bitfold.Core.Config.{Config}
use bitfold.Core.Time.{duration_since, from_millis}
use bitfold.Pmtu.{
  PmtuDiscovery, Probe, await_probe, datagram_cap, clamp_high, probe_if_due, handle_pmtu,
  accept_reply, process_reply,
}

-- A probe was sent from the state `p`, which is `q` before, with its upper bound clamped.
pub record Probing (config : Config) (p : PmtuDiscovery) (probe : Probe) : Type 0 where
  pub waits : p.outstanding ≡ some probe
  pub lower : p.low < probe.size
  pub upper : probe.size < p.high
  pub sendable : probe.size ≤ datagram_cap config

-- The reply that answers an outstanding probe with its size and token is accepted, moves the lower
-- bound up to that size, and so makes the interval smaller.
pub reply_narrows :
    (config : Config) (p : PmtuDiscovery) (probe : Probe) (time : ℕ)
    → Probing config p probe
    → let (valid, q) = process_reply p probe.size probe.token time in
      (valid ≡ true) × (q.high - q.low < p.high - p.low) × (q.low ≡ probe.size) × (q.high ≡ p.high)
unfolding process_reply accept_reply
reply_narrows config p probe time v = ground (arith, v.waits, v.lower, v.upper)

-- A probe that is outstanding for longer than the timeout, which is never below 200 ms, is given up:
-- the upper bound moves below its size, and so the interval gets smaller.
pub timeout_narrows :
    (config : Config) (p : PmtuDiscovery) (probe : Probe) (time rto token : ℕ) (fill : ℕ → List ℕ)
    → config.use_pmtu_discovery ≡ true
    → Probing config p probe
    → max rto (from_millis 200) < duration_since time probe.sent
    → let (command, q) = handle_pmtu config p time rto token fill in
      (command ≡ none)
      × (q.high - q.low < p.high - p.low)
      × (q.low ≡ p.low)
      × (q.high ≡ probe.size - 1)
      × (q.outstanding ≡ none)
unfolding handle_pmtu await_probe
timeout_narrows config p probe time rto token fill on v late =
    ground (arith, v.waits, v.lower, v.upper)

-- A reply with the right token and a size of at least both bounds ends the search at that size,
-- whether a probe of that size was ever sent or not: the next call takes it for the fragment size.
pub oversized_reply :
    (config : Config) (p : PmtuDiscovery) (probe : Probe) (size now later rto token : ℕ)
    (fill : ℕ → List ℕ)
    → config.use_pmtu_discovery ≡ true
    → p.outstanding ≡ some probe
    → p.low ≤ size
    → p.high ≤ size
    → let q = (process_reply p size probe.token now).1 in
      let (command, r) = handle_pmtu config q later rto token fill in
      (command ≡ none) × (r.fragment_size ≡ size)
unfolding process_reply accept_reply handle_pmtu probe_if_due clamp_high
oversized_reply config p probe size now later rto token fill on waits low high =
    ground (arith, waits)
