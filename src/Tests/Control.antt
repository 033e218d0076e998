-- ===== src/Tests/Control.antt =====
-- The queue, the flow control, the throttle and the discovery of the MTU at concrete states.
use bitfold.Prelude.{
  ℕ, ◌+◌, ◌≤◌, ◌<◌, ◌≡◌, ◌⊎◌, refl, inr, true, List, [], ◌∷◌, none, some, arith, replicate,
}
use bitfold.Tests.Floats.{thousandths}
use bitfold.Core.Config.{Config, default_config}
use bitfold.Core.Shared.{SharedBytes}
use bitfold.Command.{send_unreliable, ping}
use bitfold.Queue.{Waiting, command_data_size, IsCounted}
use bitfold.FlowControl.{FlowControl, good_conditions, poor_conditions, adjust_window_size}
use bitfold.FlowControl.Window.{InBounds, Adjusted, adjust_window_size-Adjusted}
use bitfold.Throttle.{BandwidthThrottle}
use bitfold.Throttle.Budget.{total, sent_of, sent_of_bounded}
use bitfold.Pmtu.{PmtuDiscovery, Probe, handle_pmtu, process_reply}
use bitfold.Pmtu.Search.{Probing, oversized_reply}

abbrev config : Config
config = record default_config { max_waiting_data = 10; use_window_flow_control = true }

abbrev five_bytes : SharedBytes
five_bytes = record { buffer = replicate 5 1; start = 0; len = 5 }

abbrev queue : Waiting
queue = record {
  command_queue = record {
    commands = ping 3 ∷ send_unreliable 0 five_bytes ∷ [];
    max_queue_size = 4;
  };
  total_waiting_data = 5;
}

queue-IsCounted : IsCounted config queue
unfolding command_data_size
queue-IsCounted = record { counter = refl; bounded = inr (omega arith) }

abbrev flow : FlowControl
flow = record { window_size = 512; reliable_data_in_transit = 3000 }

flow-InBounds : InBounds config flow
flow-InBounds = omega arith

adjust_window_size-Adjusted_example :
    (g : FlowControl) × (adjust_window_size thousandths config flow 100 300 ≡ some g)
    × Adjusted config flow g
adjust_window_size-Adjusted_example =
    adjust_window_size-Adjusted thousandths config flow 100 300 flow-InBounds

-- One part in sixteen is taken away when one packet in ten is lost.
shrinks_under_loss :
    adjust_window_size thousandths config flow 100 300
    ≡ some (record { window_size = 480; reliable_data_in_transit = 3000 })
unfolding adjust_window_size good_conditions poor_conditions
shrinks_under_loss = refl

abbrev throttle : BandwidthThrottle
throttle = record {
  bytes_sent_this_window = 100;
  bytes_received_this_window = 0;
  bandwidth_window_start = 0;
  outgoing_bandwidth_limit = 1000;
  incoming_bandwidth_limit = 0;
}

abbrev offers : List (ℕ × ℕ)
offers = (1_000_000_006, 400) ∷ (1_000_000_007, 400) ∷ (1_500_000_008, 400) ∷ []

sent_of_bounded_example :
    let sent = sent_of throttle ((1_000_000_005, 700) ∷ offers) in
    (total sent < 1000 + 700) × ((sent ≡ 700 ∷ 400 ∷ 400 ∷ 400 ∷ []) ⊎ (1000 ≤ total sent))
sent_of_bounded_example =
    sent_of_bounded 1000 700 throttle 1_000_000_005 700 offers (omega arith) (omega arith) refl
      (omega arith) (omega arith) (ground arith)

abbrev search : PmtuDiscovery
search = record { fragment_size = 1024; low = 576; high = 1400; last_probe = 0; outstanding = none }

abbrev zeros : ℕ → List ℕ
zeros n = replicate n 0

abbrev probe : Probe
probe = record { size = 988; token = 42; sent = 6_000_000_000 }

abbrev probing : PmtuDiscovery
probing = record search { outstanding = some probe; last_probe = 6_000_000_000 }

probing-Probing : Probing config probing probe
probing-Probing = record {
  waits = refl;
  lower = omega arith;
  upper = omega arith;
  sendable = omega arith;
}

oversized_reply_example :
    let q = (process_reply probing 60000 42 7_000_000_000).1 in
    let (command, r) = handle_pmtu config q 7_000_000_001 0 43 zeros in
    (command ≡ none) × (r.fragment_size ≡ 60000)
oversized_reply_example =
    oversized_reply config probing probe 60000 7_000_000_000 7_000_000_001 0 43 zeros refl refl
      (omega arith) (omega arith)
