-- ===== src/Channel/Sequenced.antt =====
-- Sequenced delivery: which packets are dropped, and what sequence number 0 does.
use bitfold.Prelude.{ℕ, ◌<◌, ◌≡◌, ◌≢◌, none, some, arith, if◌then◌else◌}
use bitfold.Sequence.Order.{sequence_greater_than, wrapping_sub}
use bitfold.Core.Shared.{SharedBytes}
use bitfold.Channel.{ChannelState, process_sequenced}

-- A packet with a number other than 0, and not at the point opposite to the latest one, is delivered
-- and becomes the latest unless the latest is greater in the wrapping order; if the latest is
-- greater it is dropped and the channel stays as it was.
pub process_sequenced_order :
    (c : ChannelState) (s : ℕ) (d : SharedBytes)
    → s < 65536
    → c.latest_sequence < 65536
    → s ≢ 0
    → wrapping_sub s c.latest_sequence ≢ 32768
    → process_sequenced c s d ≡ (
        if sequence_greater_than c.latest_sequence s
        then (none, c)
        else (some d, record c { latest_sequence = s }))
unfolding process_sequenced sequence_greater_than
process_sequenced_order c s d hs hl nz op = ground arith

-- A packet numbered 0 is delivered whatever was delivered before, and lets every packet numbered
-- below 32768 be delivered once more, however old it is.
pub process_sequenced_zero :
    (c : ChannelState) (d e : SharedBytes) (s : ℕ)
    → s < 32768
    → let (first, c1) = process_sequenced c 0 d in
      let (again, c2) = process_sequenced c1 s e in
      (first ≡ some d) × (again ≡ some e) × (c2.latest_sequence ≡ s)
unfolding process_sequenced
process_sequenced_zero c d e s h = ground arith
