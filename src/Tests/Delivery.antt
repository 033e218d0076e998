-- ===== src/Tests/Delivery.antt =====
-- Channels and sequence buffers at concrete packets.
use bitfold.Prelude.{
  ℕ, replicate, ◌++◌, ◌<◌, ◌≤◌, ◌≡◌, ◌↔◌, ◌⊎◌, not, refl, true, List, [], ◌∷◌, none, some, arith,
  Among, if◌then◌else◌,
}
use bitfold.Prelude.Map.{lookup, insert, remove as map_remove}
use bitfold.Core.Shared.{SharedBytes}
use bitfold.Sequence.Order.{
  sequence_greater_than, sequence_less_than, wrapping_sub, sequence_greater_than_iff,
}
use bitfold.Sequence.Buffer.{
  SequenceBuffer, exists, remove, index, advance_sequence, remove_entries, remove_range,
  insert as insert_entry,
}
use bitfold.Sequence.Buffer.Shape.{HasShape}
use bitfold.Sequence.Buffer.Contents.{exists-insert}
use bitfold.Channel.{ChannelState, new, process_ordered, process_sequenced, deliver_ready}
use bitfold.Channel.Loop.{consecutive}
use bitfold.Channel.Ordered.{receive_all, in_order_delivery}
use bitfold.Channel.Total.{process_ordered_other}
use bitfold.Channel.Stale.{upward, empty, stale_packet_delivered}
use bitfold.Channel.Sequenced.{process_sequenced_order}
use bitfold.Unsequenced.{UnsequencedState, is_duplicate, mark_received, window_empty}
use bitfold.Unsequenced.Window.{mark_received-is_duplicate, mark_received-behind}

-- Packet `k` of a stream is the byte `k`.
abbrev stream : ℕ → SharedBytes
stream k = record { buffer = k ∷ []; start = 0; len = 1 }

abbrev arrivals : List ℕ
arrivals = 2 ∷ 0 ∷ 2 ∷ 1 ∷ 4 ∷ 0 ∷ []

arrivals_delivered :
    receive_all stream new arrivals
    ≡ some (
      consecutive stream 0 3,
      record {
        expected_sequence = 3;
        buffered_packets = (0, stream 0) ∷ (4, stream 4) ∷ [];
        latest_sequence = 0;
      },
    )
unfolding new process_ordered deliver_ready lookup insert map_remove
arrivals_delivered = refl

in_order_delivery_example :
    (m : ℕ) × (c : ChannelState) × (receive_all stream new arrivals
      ≡ some (consecutive stream 0 m, c))
    × ((k : ℕ) → k < m → Among k arrivals)
    × ¬ Among m arrivals
in_order_delivery_example = in_order_delivery stream arrivals (ground arith)

-- A channel that expects packet 5 and has buffered packets 0 and 7.
abbrev waiting : ChannelState
waiting = record {
  expected_sequence = 5;
  buffered_packets = (0, stream 0) ∷ (7, stream 7) ∷ [];
  latest_sequence = 40000;
}

process_ordered_other_example :
    process_ordered waiting 1 (stream 1)
    ≡ some ([], record waiting { buffered_packets = insert 1 (stream 1) waiting.buffered_packets })
unfolding lookup
process_ordered_other_example = process_ordered_other waiting 1 (stream 1) refl (ground arith)

stale_packet_delivered_example :
    receive_all stream new (0 ∷ 0 ∷ upward 1 65535)
    ≡ some (consecutive stream 0 65536 ++ stream 0 ∷ [], empty 1)
stale_packet_delivered_example = stale_packet_delivered stream

process_sequenced_order_example : process_sequenced waiting 39999 (stream 1) ≡ (
    if sequence_greater_than 40000 39999
    then (none, waiting)
    else (some (stream 1), record waiting { latest_sequence = 39999 }))
process_sequenced_order_example =
    process_sequenced_order waiting 39999 (stream 1) (omega arith) (omega arith) (ground arith)
      (ground arith)

sequence_greater_than_iff_example : (sequence_greater_than 3 65530 ≡ true) ↔ (
    (1 ≤ wrapping_sub 3 65530) × (wrapping_sub 3 65530 < 32768)
    ⊎ (wrapping_sub 3 65530 ≡ 32768) × (65530 < 3))
sequence_greater_than_iff_example = sequence_greater_than_iff 3 65530 (omega arith) (omega arith)

-- A buffer of four places that holds 9 and 11.
abbrev received : SequenceBuffer ℕ
received = record {
  sequence_num = 12;
  entry_sequences = none ∷ some 9 ∷ none ∷ some 11 ∷ [];
  entries = 0 ∷ 90 ∷ 0 ∷ 110 ∷ [];
}

received-HasShape : HasShape 4 received
received-HasShape = record { sequences = refl; items = refl; number = omega arith }

exists-insert_example : exists received 11 ≡ true
unfolding insert_entry exists index sequence_less_than sequence_greater_than advance_sequence
    remove_entries remove_range remove
exists-insert_example = exists-insert 0 received 13 11 5 (ground arith) refl

abbrev unsequenced : UnsequencedState
unsequenced = record {
  incoming_unsequenced_group = 65000;
  unsequenced_window = replicate 32 5;
  outgoing_unsequenced_group = 0;
}

mark_received-is_duplicate_example : is_duplicate (mark_received unsequenced 1000) 1000 ≡ true
mark_received-is_duplicate_example =
    mark_received-is_duplicate unsequenced 1000 (omega arith) (omega arith) refl (omega arith)

mark_received-behind_example :
    (mark_received unsequenced 64000 ≡ unsequenced)
    × (is_duplicate (mark_received unsequenced 64000) 64000
        ≡ not (window_empty unsequenced.unsequenced_window))
mark_received-behind_example = mark_received-behind unsequenced 64000 (omega arith)
