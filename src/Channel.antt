-- ===== src/Channel.antt =====
-- crates/bitfold-peer/src/channel_state.rs: the ordering and sequencing of one channel.
pub mod Loop
pub mod Ordered
pub mod Total
pub mod Stale
pub mod Sequenced
use bitfold.Prelude.{
  ℕ, zero, suc, ◌+◌, ◌%◌, Bool, List, [], ◌∷◌, ◌++◌, ◌||◌, Option, none, some, length, ltb, ◌==◌,
  if◌then◌else◌,
}
use bitfold.Prelude.Map.{lookup, insert, remove}
use bitfold.Sequence.Order.{next, wrapping_sub}
use bitfold.Core.Shared.{SharedBytes}

pub record ChannelState : Type 0 where
  pub expected_sequence : ℕ
  pub buffered_packets : List (ℕ × SharedBytes)
  pub latest_sequence : ℕ

unfoldable pub new : ChannelState
new = record { expected_sequence = 0; buffered_packets = []; latest_sequence = 0 }

abbrev pub deliver :
    SharedBytes
    → Option (List SharedBytes × ChannelState)
    → Option (List SharedBytes × ChannelState)
deliver d none = none
deliver d (some (ds, c)) = some (d ∷ ds, c)

-- The `while let` loop on fuel, with the packets it pushes; `none` when the fuel runs out.
unfoldable pub deliver_ready : ℕ → ChannelState → Option (List SharedBytes × ChannelState)
deliver_ready zero c = none
deliver_ready (suc fuel) c = elim (lookup c.expected_sequence c.buffered_packets) [
  | none ↦ some ([], c)
  | some packet_data ↦ deliver packet_data (
      deliver_ready fuel (record c {
        expected_sequence = next c.expected_sequence;
        buffered_packets = remove c.expected_sequence c.buffered_packets;
      }))
]

-- Each round takes a packet out of the map, so one round more than it holds is enough.
unfoldable pub process_ordered :
    ChannelState → ℕ → SharedBytes → Option (List SharedBytes × ChannelState)
process_ordered c sequence data_in =
    let buffered = insert sequence data_in c.buffered_packets in
    deliver_ready (length buffered + 1) (record c { buffered_packets = buffered })

unfoldable pub process_sequenced :
    ChannelState → ℕ → SharedBytes → Option SharedBytes × ChannelState
process_sequenced c sequence data_in =
    let is_newer = ltb (wrapping_sub sequence c.latest_sequence) 32768 in
    if is_newer || sequence == 0
    then (some data_in, record c { latest_sequence = sequence })
    else (none, c)
