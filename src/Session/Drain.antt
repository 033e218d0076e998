-- ===== src/Session/Drain.antt =====
-- A queue of commands that fit is flushed to its end.
use bitfold.Prelude.{
  ℕ, zero, suc, ◌+◌, ◌≤◌, ◌<◌, ◌^◌, ◌%◌, ◌≡◌, refl, List, [], ◌∷◌, map, Option, some, arith, length,
  take, drop, length-drop, ap, true, false, subst, min, All, List-cases, inl, inr,
}
use bitfold.Core.Float.{Float}
use bitfold.Core.Config.{Config}
use bitfold.Command.{ProtocolCommand}
use bitfold.Queue.{IsCounted}
use bitfold.Codec.Bytes.{ByteOrder, Result, ok}
use bitfold.Codec.Compression.{Compressors, IsLossless}
use bitfold.Codec.Wire.{wire, detach}
use bitfold.Codec.Packet.{AllFit}
use bitfold.Throttle.{BandwidthThrottle, can_send_within_bandwidth, record_bytes_sent}
use bitfold.Peer.{Peer, has_queued_commands}
use bitfold.Peer.Process.{unpack}
use bitfold.Peer.Encode.{size_limit, static_overhead, encode_queued_commands_bounded}
use bitfold.Peer.Encode.Selection.{drop-AllFit}
use bitfold.Peer.Encode.Sealing.{NeverFails}
use bitfold.Peer.Encode.Transmit.{queued, Transmits, encode_queued_commands_bounded-Transmits}
use bitfold.Session.{Action, send_action}
use bitfold.Session.Run.{flush, flush_queue}

-- Every command fits into a datagram of its own.
abbrev pub EachFits : Config → ℕ → List ProtocolCommand → Type 0
EachFits config cap cs = All (λ cmd. static_overhead config + 2 + length (wire cmd) ≤ cap) cs

drop-EachFits :
    (config : Config) (cap n : ℕ) (cs : List ProtocolCommand)
    → EachFits config cap cs
    → EachFits config cap (drop n cs)
drop-EachFits config cap zero cs h = h
drop-EachFits config cap (suc n) [] h = tt
drop-EachFits config cap (suc n) (c ∷ cs) (h, hs) = drop-EachFits config cap n cs hs

-- A queue that can be sent without a limit on the bandwidth.
pub record IsSendable {float : Float} (p : Peer float) : Type 0 where
  pub counted : IsCounted p.config p.waiting
  pub fit : AllFit (queued p)
  pub each :
      EachFits p.config (min p.pmtu.fragment_size p.config.receive_buffer_max_size) (queued p)
  pub buffer : p.config.receive_buffer_max_size ≤ 1537
  pub unlimited : p.bandwidth_throttle.outgoing_bandwidth_limit ≡ 0

module _ ⦃bytes : ByteOrder⦄ (crc32 : List ℕ → ℕ) (c : Compressors) where
  -- The actions send datagrams, none larger than the receive buffer, which unpack to the commands,
  -- all of them and in order.
  pub data Delivers (config : Config) : List Action → List ProtocolCommand → Type 0 where
    nothing_left : Delivers config [] []
    datagram :
        {actions : List Action} (out : List ℕ) (n : ℕ) (cs : List ProtocolCommand)
        → unpack crc32 c config out ≡ ok (map detach (take n cs))
        → length out ≤ config.receive_buffer_max_size
        → Delivers config actions (drop n cs)
        → Delivers config (send_action out ∷ actions) cs

size_limit-bounds :
    (config : Config) (cs : List ProtocolCommand) (fragment_size : ℕ)
    → let cap = min fragment_size config.receive_buffer_max_size in
      (cap ≤ size_limit config cs cap) × (size_limit config cs cap ≤ config.receive_buffer_max_size)
unfolding size_limit
size_limit-bounds config cs fragment_size = ground arith

some_length : {A : Type 0} {xs ys : List A} {x : A} → xs ≡ x ∷ ys → 0 < length xs
some_length e = rw e (omega arith)

can_send :
    (b : BandwidthThrottle) → b.outgoing_bandwidth_limit ≡ 0 → can_send_within_bandwidth b ≡ true
unfolding can_send_within_bandwidth
can_send b h = ground (arith, h)

has_none : {float : Float} (p : Peer float) → queued p ≡ [] → has_queued_commands p ≡ false
unfolding has_queued_commands
has_none p e = rw (has_queued_commands, e) refl

has_some : {float : Float} (p : Peer float) → 0 < length (queued p) → has_queued_commands p ≡ true
unfolding has_queued_commands
has_some p h = ground (arith, h)

module _ {float : Float} ⦃bytes : ByteOrder⦄ (crc32 : List ℕ → ℕ) (c : Compressors)
    (crc32-lt : (xs : List ℕ) → crc32 xs < 2 ^ 32) (lossless : IsLossless c)
    (never : NeverFails c) where
  -- What one round leaves is sendable too.
  round-IsSendable :
      (p : Peer float) (limit time random bytes_out : ℕ) (r : Result (Option (List ℕ)) × Peer float)
      → (t : Transmits crc32 c p p limit time random r) → IsSendable p
      → IsSendable
          (record r.1 { bandwidth_throttle = record_bytes_sent r.1.bandwidth_throttle bytes_out })
  unfolding record_bytes_sent
  round-IsSendable p limit time random bytes_out r t h =
      let config : r.1.config ≡ p.config = ap (λ (q : Peer float). q.config) t.unchanged in
      let pmtu : r.1.pmtu ≡ p.pmtu = ap (λ (q : Peer float). q.pmtu) t.unchanged in
      let throttle : r.1.bandwidth_throttle ≡ p.bandwidth_throttle =
        ap (λ (q : Peer float). q.bandwidth_throttle) t.unchanged in
      record {
        counted = t.counted;
        fit = rw t.left (drop-AllFit t.count (queued p) h.fit);
        each = rw (t.left, config, pmtu) (drop-EachFits p.config _ t.count (queued p) h.each);
        buffer = rw config h.buffer;
        unlimited = rw throttle h.unlimited;
      }

  flush_drains :
      (fuel : ℕ) (p : Peer float)
      → length (queued p) < fuel
      → IsSendable p
      → (actions : List Action) × (q : Peer float) × (flush crc32 c fuel p ≡ some (actions, q))
        × (queued q ≡ [])
        × Delivers crc32 c p.config actions (queued p)
  unfolding flush
  flush_drains zero p short h = absurd (omega arith)
  flush_drains (suc fuel) p short h =
      let cap = min p.pmtu.fragment_size p.config.receive_buffer_max_size in
      let r = encode_queued_commands_bounded crc32 c p cap in
      elim (List-cases (queued p)) [
        | inl none_queued ↦ (
          [],
          p,
          rw (flush, has_none p none_queued) refl,
          none_queued,
          rw none_queued nothing_left,
        )
        | inr (first, others, e) ↦
            let each = subst (λ cs. EachFits p.config cap cs) e h.each in
            let (low, high) = size_limit-bounds p.config (queued p) p.pmtu.fragment_size in
            let t =
              encode_queued_commands_bounded-Transmits crc32 c crc32-lt lossless never p p first
                others cap 0 0 refl h.counted e h.fit (omega (arith, each.0, low))
                (omega (arith, high, h.buffer)) in
            let next : Peer float = record r.1 {
              bandwidth_throttle = record_bytes_sent r.1.bandwidth_throttle (length t.out % 2 ^ 32);
            } in
            let smaller : length (queued next) < fuel =
              rw t.left
                (omega (arith, length-drop t.count (queued p), t.progress, short, some_length e)) in
            let (actions, q, flushed, emptied, delivered) =
              flush_drains fuel next smaller
                (round-IsSendable p _ 0 0 (length t.out % 2 ^ 32) r t h) in
            let config : r.1.config ≡ p.config = ap (λ (q : Peer float). q.config) t.unchanged in
            (
              send_action t.out ∷ actions,
              q,
              rw
                  (
                    flush,
                    has_some p (some_length e),
                    can_send p.bandwidth_throttle h.unlimited,
                    t.sends,
                    flushed,
                  )
                  refl,
              emptied,
              datagram t.out t.count (queued p) t.unpacked (omega (arith, t.size, high)) (
                  subst (λ cs. Delivers crc32 c p.config actions cs) t.left
                    (subst (λ g. Delivers crc32 c g actions (queued r.1)) config delivered)),
            )
      ]

  -- With no limit on the bandwidth, a receive buffer of at most 1537 bytes, a counted queue of
  -- commands each of which fits into a datagram, a 32-bit checksum, and compression that is lossless
  -- and succeeds (zlib on any input, lz4 on any input up to its maximum size), flushing sends the
  -- whole queue: the datagrams, none larger than the receive buffer, unpack to all the commands in
  -- order, and the queue is empty.
  pub flush_queue-Delivers :
      (p : Peer float)
      → IsSendable p
      → (actions : List Action) × (q : Peer float) × (flush_queue crc32 c p ≡ some (actions, q))
        × (queued q ≡ [])
        × Delivers crc32 c p.config actions (queued p)
  unfolding flush_queue
  flush_queue-Delivers p h = flush_drains _ p (omega arith) h
