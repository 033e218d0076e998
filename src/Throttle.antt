-- ===== src/Throttle.antt =====
-- crates/bitfold-peer/src/bandwidth_throttle.rs: bytes per second in each direction.
pub mod Budget
use bitfold.Prelude.{ℕ, ◌+◌, ◌-◌, Bool, true, false, ltb, leb, ◌==◌, if◌then◌else◌}
use bitfold.Core.Time.{duration_since, from_secs}
use bitfold.Core.Word.{saturating_add32}

pub record BandwidthThrottle : Type 0 where
  pub bytes_sent_this_window : ℕ
  pub bytes_received_this_window : ℕ
  pub bandwidth_window_start : ℕ
  pub outgoing_bandwidth_limit : ℕ
  pub incoming_bandwidth_limit : ℕ

abbrev pub bandwidth_window : ℕ
bandwidth_window = from_secs 1

unfoldable pub new : ℕ → ℕ → ℕ → BandwidthThrottle
new outgoing_limit incoming_limit start_time = record {
  bytes_sent_this_window = 0;
  bytes_received_this_window = 0;
  bandwidth_window_start = start_time;
  outgoing_bandwidth_limit = outgoing_limit;
  incoming_bandwidth_limit = incoming_limit;
}

-- Whether the window was reset, and the state.
unfoldable pub update_bandwidth_window : BandwidthThrottle → ℕ → Bool × BandwidthThrottle
update_bandwidth_window b time =
    if leb bandwidth_window (duration_since time b.bandwidth_window_start)
    then (
      true,
      record b {
        bytes_sent_this_window = 0;
        bytes_received_this_window = 0;
        bandwidth_window_start = time;
      },
    )
    else (false, b)

unfoldable pub record_bytes_sent : BandwidthThrottle → ℕ → BandwidthThrottle
record_bytes_sent b bytes = record b {
  bytes_sent_this_window = saturating_add32 b.bytes_sent_this_window bytes;
}

unfoldable pub record_bytes_received : BandwidthThrottle → ℕ → BandwidthThrottle
record_bytes_received b bytes = record b {
  bytes_received_this_window = saturating_add32 b.bytes_received_this_window bytes;
}

unfoldable pub can_send_within_bandwidth : BandwidthThrottle → Bool
can_send_within_bandwidth b =
    if b.outgoing_bandwidth_limit == 0
    then true
    else ltb b.bytes_sent_this_window b.outgoing_bandwidth_limit

unfoldable pub can_receive_within_bandwidth : BandwidthThrottle → Bool
can_receive_within_bandwidth b =
    if b.incoming_bandwidth_limit == 0
    then true
    else ltb b.bytes_received_this_window b.incoming_bandwidth_limit

unfoldable pub set_outgoing_bandwidth_limit : BandwidthThrottle → ℕ → BandwidthThrottle
set_outgoing_bandwidth_limit b limit = record b { outgoing_bandwidth_limit = limit }

unfoldable pub set_incoming_bandwidth_limit : BandwidthThrottle → ℕ → BandwidthThrottle
set_incoming_bandwidth_limit b limit = record b { incoming_bandwidth_limit = limit }
