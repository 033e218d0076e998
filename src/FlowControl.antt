-- ===== src/FlowControl.antt =====
-- crates/bitfold-peer/src/flow_control.rs: the window of unacknowledged data.
pub mod Window
use bitfold.Prelude.{
  ℕ, ◌+◌, ◌-◌, ◌*◌, ◌/◌, ◌^◌, Bool, true, false, not, ◌&&◌, ◌||◌, Option, none, some, ltb, leb,
  if◌then◌else◌, min, max,
}
use mathlib.Core.Option
use bitfold.Core.Config.{Config}
use bitfold.Core.Float.{Float}
use bitfold.Core.Word.{checked_add, checked_sub, checked_mul, clamp, saturating_add32}

pub record FlowControl : Type 0 where
  pub window_size : ℕ
  pub reliable_data_in_transit : ℕ

unfoldable pub new : Config → FlowControl
new config = record { window_size = config.initial_window_size; reliable_data_in_transit = 0 }

abbrev pub with_window : FlowControl → Option ℕ → Option FlowControl
with_window f none = none
with_window f (some w) = some (record f { window_size = w })

unfoldable pub set_window_size : Config → FlowControl → ℕ → Option FlowControl
set_window_size config f window_size =
    with_window f (clamp window_size config.min_window_size config.max_window_size)

unfoldable pub record_reliable_data_sent : FlowControl → ℕ → FlowControl
record_reliable_data_sent f size = record f {
  reliable_data_in_transit = saturating_add32 f.reliable_data_in_transit size;
}

unfoldable pub record_reliable_data_acked : FlowControl → ℕ → FlowControl
record_reliable_data_acked f size = record f {
  reliable_data_in_transit = f.reliable_data_in_transit - size;
}

abbrev pub below_limit : ℕ → Option ℕ → Option Bool
below_limit n none = none
below_limit n (some limit) = some (ltb n limit)

unfoldable pub can_send_reliable : Config → FlowControl → ℕ → Option Bool
can_send_reliable config f packets_in_flight =
    if config.use_window_flow_control
    then below_limit f.reliable_data_in_transit
        (checked_mul (2 ^ 32) f.window_size config.fragment_size)
    else some (ltb packets_in_flight config.max_packets_in_flight)

abbrev pub at_most : ℕ → Option ℕ → Option ℕ
at_most bound none = none
at_most bound (some w) = some (min w bound)

abbrev pub at_least : ℕ → Option ℕ → Option ℕ
at_least bound none = none
at_least bound (some w) = some (max w bound)

abbrev pub grown : Config → ℕ → Option ℕ
grown config w = at_most config.max_window_size (checked_add (2 ^ 32) w (max (w / 32) 1))

abbrev pub shrunk : Config → ℕ → Option ℕ
shrunk config w = at_least config.min_window_size (checked_sub w (max (w / 16) 1))

module _ (float : Float) where
  open float use {F32, literal, lt}

  unfoldable pub good_conditions : F32 → ℕ → Bool
  good_conditions loss_rate rtt_ms = lt loss_rate (literal 1 100) && ltb rtt_ms 200

  unfoldable pub poor_conditions : F32 → ℕ → Bool
  poor_conditions loss_rate rtt_ms = lt (literal 5 100) loss_rate || ltb 500 rtt_ms

  unfoldable pub adjust_window_size : Config → FlowControl → F32 → ℕ → Option FlowControl
  adjust_window_size config f loss_rate rtt_ms =
      if not config.use_window_flow_control
      then some f
      else if good_conditions loss_rate rtt_ms
      then with_window f (grown config f.window_size)
      else if poor_conditions loss_rate rtt_ms
      then with_window f (shrunk config f.window_size)
      else some f
