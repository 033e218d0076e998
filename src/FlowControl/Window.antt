-- ===== src/FlowControl/Window.antt =====
-- The bounds of the window, and the counter of data in transit.
use bitfold.Prelude.{
  ℕ, ◌+◌, ◌-◌, ◌*◌, ◌/◌, ◌^◌, ◌≤◌, ◌<◌, ◌≡◌, refl, true, false, none, some, arith, ltb, min, max,
  Bool-cases, inl, inr, if◌then◌else◌,
}
use bitfold.Core.Config.{Config}
use bitfold.Core.Float.{Float}
use bitfold.FlowControl.{
  FlowControl, set_window_size, can_send_reliable, poor_conditions, good_conditions,
  adjust_window_size, grown, shrunk,
}

-- The configured bounds make sense, and the window lies between them.
pub record InBounds (config : Config) (f : FlowControl) : Type 0 where
  pub positive : 1 ≤ config.min_window_size
  pub ordered : config.min_window_size ≤ config.max_window_size
  pub no_overflow : config.max_window_size ≤ 2 ^ 31
  pub above : config.min_window_size ≤ f.window_size
  pub below : f.window_size ≤ config.max_window_size

-- `g` differs from `f` by a small step of the window, inside the bounds.
pub record Adjusted (config : Config) (f g : FlowControl) : Type 0 where
  pub bounds : InBounds config g
  pub up : g.window_size ≤ f.window_size + max (f.window_size / 16) 1
  pub down : f.window_size ≤ g.window_size + max (f.window_size / 16) 1
  pub transit : g.reliable_data_in_transit ≡ f.reliable_data_in_transit

unchanged : (config : Config) (f : FlowControl) → InBounds config f → Adjusted config f f
unchanged config f v = omega arith

grown-Adjusted :
    (config : Config) (f : FlowControl)
    → InBounds config f
    → (w : ℕ) × (grown config f.window_size ≡ some w)
      × Adjusted config f (record f { window_size = w })
grown-Adjusted config f v = (
  min (f.window_size + max (f.window_size / 32) 1) config.max_window_size,
  ground arith,
  record { bounds = omega arith; up = omega arith; down = omega arith; transit = refl },
)

shrunk-Adjusted :
    (config : Config) (f : FlowControl)
    → InBounds config f
    → (w : ℕ) × (shrunk config f.window_size ≡ some w)
      × Adjusted config f (record f { window_size = w })
shrunk-Adjusted config f v = (
  max (f.window_size - max (f.window_size / 16) 1) config.min_window_size,
  ground arith,
  record { bounds = omega arith; up = omega arith; down = omega arith; transit = refl },
)

-- If the configured minimum is positive and not above the maximum, the maximum is at most 2^31, and
-- the window lies between the two, then adjusting the window does not panic, leaves it between them,
-- moves it by at most 1/16 of it or 1, and does not touch the data in transit.
pub adjust_window_size-Adjusted :
    (float : Float) (config : Config) (f : FlowControl) (loss_rate : float.F32) (rtt_ms : ℕ)
    → InBounds config f
    → (g : FlowControl) × (adjust_window_size float config f loss_rate rtt_ms ≡ some g)
      × Adjusted config f g
unfolding adjust_window_size
adjust_window_size-Adjusted float config f loss_rate rtt_ms v =
    elim (Bool-cases config.use_window_flow_control) [
      | inr off ↦ (f, rw off, unchanged config f v)
      | inl on ↦ elim (Bool-cases (good_conditions float loss_rate rtt_ms)) [
        | inl good ↦
            let (w, e, a) = grown-Adjusted config f v in
            (record f { window_size = w }, rw (on, good, e), a)
        | inr fair ↦ elim (Bool-cases (poor_conditions float loss_rate rtt_ms)) [
          | inl poor ↦
              let (w, e, a) = shrunk-Adjusted config f v in
              (record f { window_size = w }, rw (on, fair, poor, e), a)
          | inr neither ↦ (f, rw (on, fair, neither), unchanged config f v)
        ]
      ]
    ]

-- Under the same bounds, and if the largest window times the fragment size fits a `u32`, a window
-- that is negotiated is brought between the bounds without a panic, and asking whether to send
-- compares the data in transit with the window in bytes, or the packets in flight with their limit
-- when the window is not used, without overflow.
pub set_window_size-InBounds :
    (config : Config) (f : FlowControl) (wish in_flight : ℕ)
    → InBounds config f
    → config.max_window_size * config.fragment_size < 2 ^ 32
    → (g : FlowControl) × (set_window_size config f wish ≡ some g)
      × InBounds config g
      × (can_send_reliable config g in_flight
          ≡ some (
              if config.use_window_flow_control
              then ltb g.reliable_data_in_transit (g.window_size * config.fragment_size)
              else ltb in_flight config.max_packets_in_flight))
unfolding set_window_size can_send_reliable
set_window_size-InBounds config f wish in_flight v small =
    let w = max config.min_window_size (min wish config.max_window_size) in
    let low : w ≤ config.max_window_size = omega arith in
    let product : w * config.fragment_size < 2 ^ 32 = grind arith in
    (record f { window_size = w }, ground arith, omega arith, ground arith)

-- A window of 0 under poor conditions makes the adjustment underflow and panic.
pub empty_window_panics :
    (float : Float) (config : Config) (f : FlowControl) (rtt_ms : ℕ) (loss_rate : float.F32)
    → config.use_window_flow_control ≡ true
    → good_conditions float loss_rate rtt_ms ≡ false
    → poor_conditions float loss_rate rtt_ms ≡ true
    → f.window_size ≡ 0
    → adjust_window_size float config f loss_rate rtt_ms ≡ none
unfolding adjust_window_size
empty_window_panics float config f rtt_ms loss_rate on good poor empty = rw (on, good, poor, empty)
