-- ===== src/Acknowledgment/Dropped.antt =====
-- Which packets `dropped_packets` gives up.
pub mod Taken
use bitfold.Prelude.{
  ℕ, ◌+◌, ◌^◌, ◌≤◌, ◌<◌, ◌≡◌, refl, ap, ◌∙◌, Bool, true, false, ◌&&◌, ◌||◌, Option, none, some,
  List, [], ◌∷◌, arith, ltb, ◌==◌, if◌then◌else◌, Bool-cases, Option-cases, inl, inr, length,
  lt→ltb, All, ◌↔◌, ◌⊎◌, subst,
}
use native.Mathlib.Decide.{ℕ_discrete}
use bitfold.Prelude.Map.{lookup, remove, lookup-remove, length-remove-le, length-remove-lt}
use bitfold.Sequence.Order.{wrapping_sub, sequence_less_than, sequence_greater_than}
use bitfold.Core.Float.{Float}
use bitfold.Congestion.{CongestionControl, record_loss}
use bitfold.Acknowledgment.{
  AcknowledgmentHandler, SentPacket, keys, sorted_into, sort_unstable, is_dropped, take_dropped,
  taken_out, record_losses, dropped_packets,
}
use bitfold.Acknowledgment.Dropped.Taken.{
  lookup-take_dropped, length-take_dropped, among-sort_unstable, lookup_absent, is_dropped_iff,
  take_dropped-reports, take_dropped-Origin, lookup-below, Late, Contains,
}

-- What is given up of `sent`, and what is left.
pub record Drops (r : ℕ) (sent left : List (ℕ × SentPacket)) (dropped : List SentPacket)
    : Type 0 where
  pub gone : (k : ℕ) → k < 65536 → Late r k → lookup k left ≡ none
  pub kept : (k : ℕ) → k < 65536 → ¬ Late r k → lookup k left ≡ lookup k sent
  pub reported :
      (k : ℕ) (p : SentPacket) → k < 65536 → Late r k → lookup k sent ≡ some p → Contains p dropped
  pub genuine :
      (p : SentPacket) → Contains p dropped → (k : ℕ) × Late r k × (lookup k sent ≡ some p)

left_behind :
    (a k : ℕ) (m : List (ℕ × SentPacket))
    → lookup k (take_dropped a (sort_unstable (keys m)) m).1
      ≡ (if is_dropped a k then none else lookup k m)
left_behind a k m = ground (
  arith,
  lookup-take_dropped a k (sort_unstable (keys m)) m,
  among-sort_unstable k (keys m),
  lookup_absent k m,
)

take_dropped-Drops :
    (a : ℕ) (m : List (ℕ × SentPacket))
    → a < 65536
    → All (λ k. k < 65536) (keys m)
    → (let out = take_dropped a (sort_unstable (keys m)) m in Drops a m out.1 out.0)
take_dropped-Drops a m wide narrow = record {
  gone = λ k less late.
      let out = (is_dropped_iff a k wide less).1 late in left_behind a k m ∙ rw out refl;
  kept = λ k less early. elim (Bool-cases (is_dropped a k)) [
    | inl out ↦ absurd (early ((is_dropped_iff a k wide less).0 out))
    | inr keep ↦ left_behind a k m ∙ rw keep refl
  ];
  reported = λ k p less late found.
      take_dropped-reports a k p (sort_unstable (keys m)) m ((is_dropped_iff a k wide less).1 late)
        found (ground (arith, among-sort_unstable k (keys m), lookup_absent k m, found));
  genuine = λ p c.
      let (k, d, found) = take_dropped-Origin a p (sort_unstable (keys m)) m c in
      (k, (is_dropped_iff a k wide (lookup-below k p m narrow found)).0 d, found);
}

module _ {float : Float} where
  record_losses-total :
      (ps : List SentPacket) (c : CongestionControl float)
      → c.packets_lost + length ps < 2 ^ 32
      → (c' : CongestionControl float) × (record_losses ps c ≡ some c')
        × (c'.packets_lost ≡ c.packets_lost + length ps)
  unfolding record_losses record_loss
  record_losses-total [] c h = (c, refl, omega arith)
  record_losses-total (p ∷ ps) c h =
      let more = record c { packets_lost = c.packets_lost + 1 } in
      let (c', e, n) = record_losses-total ps more (omega arith) in
      let room : ltb (c.packets_lost + 1) (2 ^ 32) ≡ true = lt→ltb _ _ (omega arith) in
      (c', rw (room, record_losses) e, omega arith)

  -- The packets that are given up are exactly those that lie more than 32 sequence numbers behind the
  -- last acknowledged one, round the circle of 65536: they leave the map and are in the list that is
  -- returned, and nothing else is; all others stay in the map. Each one in the list counts as a loss.
  -- The sequence numbers are 16 bits wide, and the counter of losses has room for all packets.
  pub dropped_packets-Drops :
      (h : AcknowledgmentHandler float)
      → h.congestion.packets_lost + length h.sent_packets < 2 ^ 32
      → h.remote_ack_sequence_num < 65536
      → All (λ k. k < 65536) (keys h.sent_packets)
      → (dropped : List SentPacket) × (h' : AcknowledgmentHandler float) × (dropped_packets h
          ≡ some (dropped, h'))
        × Drops h.remote_ack_sequence_num h.sent_packets h'.sent_packets dropped
        × (h'.congestion.packets_lost ≡ h.congestion.packets_lost + length dropped)
  unfolding dropped_packets
  dropped_packets-Drops h small wide narrow =
      let a = h.remote_ack_sequence_num in
      let ss = sort_unstable (keys h.sent_packets) in
      let out = take_dropped a ss h.sent_packets in
      let fewer = length-take_dropped a ss h.sent_packets in
      let (c, e, n) = record_losses-total out.0 h.congestion (omega (arith, fewer)) in
      (
        out.0,
        record h { sent_packets = out.1; congestion = c },
        rw (e, dropped_packets),
        take_dropped-Drops a h.sent_packets wide narrow,
        n,
      )
