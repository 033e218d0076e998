-- ===== src/Channel/Total.antt =====
-- `process_ordered` on every channel and every packet: it ends, and what it keeps.
use bitfold.Prelude.{
  ℕ, zero, suc, ◌+◌, ◌<◌, ◌≡◌, ◌≢◌, inl, inr, List, [], ◌∷◌, none, some, arith, length,
  Option-cases,
}
use bitfold.Prelude.Map.{lookup, insert, lookup-insert, length-remove-lt}
use bitfold.Core.Shared.{SharedBytes}
use bitfold.Channel.{ChannelState, deliver_ready, process_ordered}
use bitfold.Channel.Loop.{advanced}

deliver_ready_stop :
    (fuel : ℕ) (c : ChannelState)
    → lookup c.expected_sequence c.buffered_packets ≡ none
    → deliver_ready (suc fuel) c ≡ some ([], c)
unfolding deliver_ready
deliver_ready_stop fuel c e = rw (e, deliver_ready)

deliver_ready_total :
    (fuel : ℕ) (c : ChannelState)
    → length c.buffered_packets < fuel
    → (ds : List SharedBytes) × (c' : ChannelState) × (deliver_ready fuel c ≡ some (ds, c'))
      × (lookup c'.expected_sequence c'.buffered_packets ≡ none)
unfolding deliver_ready
deliver_ready_total zero c h = absurd (omega arith)
deliver_ready_total (suc fuel) c h =
    elim (Option-cases (lookup c.expected_sequence c.buffered_packets)) [
      | inl missing ↦ ([], c, rw (missing, deliver_ready), missing)
      | inr (d, found) ↦
          let shrinks = length-remove-lt c.expected_sequence c.buffered_packets d found in
          let (ds, c', e, stuck) = deliver_ready_total fuel (advanced c) (omega (arith, shrinks)) in
          (d ∷ ds, c', rw (found, e, deliver_ready), stuck)
    ]

-- The delivery loop ends for every channel and packet, and stops only when the packet that the
-- channel then expects is not buffered.
pub process_ordered_total :
    (c : ChannelState) (s : ℕ) (d : SharedBytes)
    → (ds : List SharedBytes) × (c' : ChannelState) × (process_ordered c s d ≡ some (ds, c'))
      × (lookup c'.expected_sequence c'.buffered_packets ≡ none)
unfolding process_ordered
process_ordered_total c s d = deliver_ready_total _ _ (omega arith)

-- A packet that is not the expected one is buffered and nothing is delivered, also when its number
-- has been delivered before: an old packet is never dropped.
pub process_ordered_other :
    (c : ChannelState) (s : ℕ) (d : SharedBytes)
    → lookup c.expected_sequence c.buffered_packets ≡ none
    → s ≢ c.expected_sequence
    → process_ordered c s d
      ≡ some ([], record c { buffered_packets = insert s d c.buffered_packets })
unfolding process_ordered
process_ordered_other c s d stuck ne =
    let b = insert s d c.buffered_packets in
    let missing : lookup c.expected_sequence b ≡ none =
      ground (arith, lookup-insert s c.expected_sequence d c.buffered_packets) in
    let fuel : length b + 1 ≡ suc (length b) = omega arith in
    rw fuel (deliver_ready_stop (length b) (record c { buffered_packets = b }) missing)
