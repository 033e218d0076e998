-- ===== src/Throttle/Budget.antt =====
-- How much a sender that asks first can send.
use bitfold.Prelude.{
  ℕ, ◌+◌, ◌≤◌, ◌<◌, ◌≡◌, ◌^◌, refl, ap, sym, ◌∙◌, List, [], ◌∷◌, arith, All, map, if◌then◌else◌,
  ◌⊎◌, inl, inr, Bool-cases, ltb, ltb→lt,
}
use bitfold.Core.Time.{duration_since}
use bitfold.Throttle.{
  BandwidthThrottle, bandwidth_window, update_bandwidth_window, record_bytes_sent,
  can_send_within_bandwidth,
}

abbrev pub total : List ℕ → ℕ
total [] = 0
total (n ∷ ns) = n + total ns

-- The sizes of the datagrams that are sent, of those that are offered, each at its time: the window
-- is updated, and the datagram sent and recorded if that is allowed.
abbrev pub sent_of : BandwidthThrottle → List (ℕ × ℕ) → List ℕ
sent_of b [] = []
sent_of b ((time, bytes) ∷ os) =
    let b' = (update_bandwidth_window b time).1 in
    let sent = bytes ∷ sent_of (record_bytes_sent b' bytes) os in
    let refused = sent_of b' os in if can_send_within_bandwidth b' then sent else refused

same_window :
    (b : BandwidthThrottle) (time : ℕ)
    → duration_since time b.bandwidth_window_start < bandwidth_window
    → (update_bandwidth_window b time).1 ≡ b
unfolding update_bandwidth_window
same_window b time h = ground (arith, h)

can_send-eq :
    (b : BandwidthThrottle)
    → 0 < b.outgoing_bandwidth_limit
    → can_send_within_bandwidth b ≡ ltb b.bytes_sent_this_window b.outgoing_bandwidth_limit
unfolding can_send_within_bandwidth
can_send-eq b h = ground (arith, h)

record_bytes_sent-eq :
    (b : BandwidthThrottle) (bytes : ℕ)
    → b.bytes_sent_this_window + bytes < 2 ^ 32
    → record_bytes_sent b bytes
      ≡ record b { bytes_sent_this_window = b.bytes_sent_this_window + bytes }
unfolding record_bytes_sent
record_bytes_sent-eq b bytes h = ground (arith, h)

-- Everything offered was sent, or the limit was used up.
record Budgeted (limit most used : ℕ) (sent offered : List ℕ) : Type 0 where
  below : used + total sent < limit + most
  complete : (sent ≡ offered) ⊎ (limit ≤ used + total sent)

-- Within one window.
in_window :
    (limit most : ℕ) (b : BandwidthThrottle) (os : List (ℕ × ℕ))
    → 0 < limit
    → limit + most ≤ 2 ^ 32
    → b.outgoing_bandwidth_limit ≡ limit
    → b.bytes_sent_this_window < limit + most
    → All (λ o. (o.1 ≤ most) × (duration_since o.0 b.bandwidth_window_start < bandwidth_window)) os
    → Budgeted limit most b.bytes_sent_this_window (sent_of b os) (map (λ o. o.1) os)
in_window limit most b [] hl small e v h = record { below = omega arith; complete = inl refl }
in_window limit most b ((time, bytes) ∷ os) hl small e v ((size, early), h) =
    let same = same_window b time early in
    let test = can_send-eq b (omega (arith, e, hl)) in
    elim (Bool-cases (ltb b.bytes_sent_this_window b.outgoing_bandwidth_limit)) [
      | inl under ↦
          let less = ltb→lt _ _ under in
          let eq = record_bytes_sent-eq b bytes (omega (arith, less, e, small, size)) in
          let next = record b { bytes_sent_this_window = b.bytes_sent_this_window + bytes } in
          let rest = in_window limit most next os hl small e (omega (arith, less, e, size)) h in
          rw (same, test, under, eq)
            (record {
              below = omega (arith, rest.below);
              complete = elim rest.complete [
                | inl all ↦ inl (ap (λ ns. bytes ∷ ns) all)
                | inr used ↦ inr (omega (arith, used))
              ];
            })
      | inr over ↦
          let rest = in_window limit most b os hl small e v h in
          rw (same, test, over)
            (record { below = rest.below; complete = inr (ground (arith, over, e)) })
    ]

opened :
    (b : BandwidthThrottle) (time : ℕ)
    → bandwidth_window ≤ duration_since time b.bandwidth_window_start
    → (update_bandwidth_window b time).1 ≡ record b {
      bytes_sent_this_window = 0;
      bytes_received_this_window = 0;
      bandwidth_window_start = time;
    }
unfolding update_bandwidth_window
opened b time h = ground (arith, h)

-- Under a limit that is not 0, a sender asks before each datagram, of at most `most` bytes, and
-- records what it sends. Of the datagrams that it offers from the time on when a window has run out,
-- within the second that begins then, it sends less than the limit and one datagram together; and it
-- sends all of them, unless what it sends reaches the limit. The limit and `most` together are at
-- most 2^32.
pub sent_of_bounded :
    (limit most : ℕ) (b : BandwidthThrottle) (time bytes : ℕ) (os : List (ℕ × ℕ))
    → 0 < limit
    → limit + most ≤ 2 ^ 32
    → b.outgoing_bandwidth_limit ≡ limit
    → bandwidth_window ≤ duration_since time b.bandwidth_window_start
    → bytes ≤ most
    → All (λ o. (o.1 ≤ most) × (duration_since o.0 time < bandwidth_window)) os
    → let sent = sent_of b ((time, bytes) ∷ os) in
      (total sent < limit + most) × ((sent ≡ bytes ∷ map (λ o. o.1) os) ⊎ (limit ≤ total sent))
sent_of_bounded limit most b time bytes os hl small e late size h =
    let fresh : BandwidthThrottle = record b {
      bytes_sent_this_window = 0;
      bytes_received_this_window = 0;
      bandwidth_window_start = time;
    } in
    let now : duration_since time time < bandwidth_window = omega arith in
    let budget =
      in_window limit most fresh ((time, bytes) ∷ os) hl small e (omega arith) ((size, now), h) in
    let step : BandwidthThrottle → List ℕ = λ q.
      if can_send_within_bandwidth q
      then bytes ∷ sent_of (record_bytes_sent q bytes) os
      else sent_of q os in
    let whole : sent_of b ((time, bytes) ∷ os) ≡ sent_of fresh ((time, bytes) ∷ os) =
      ap step (opened b time late ∙ sym (same_window fresh time now)) in
    (
      omega (arith, budget.below, ap total whole),
      elim budget.complete [
        | inl all ↦ inl (whole ∙ all)
        | inr used ↦ inr (omega (arith, used, ap total whole))
      ],
    )
