-- ===== src/Congestion.antt =====
-- crates/bitfold-protocol/src/congestion.rs: the estimate of the round-trip time, the loss counters
-- and the throttle. `f32` is a parameter.
pub mod Bounds
use bitfold.Prelude.{
  ℕ, ◌+◌, ◌-◌, ◌*◌, ◌%◌, ◌^◌, Bool, true, false, ◌&&◌, Option, none, some, ltb, ◌==◌, if◌then◌else◌,
  min,
}
use bitfold.Core.Float.{Float}
use bitfold.Core.Time.{duration_since, from_millis, from_secs, as_millis}
use bitfold.Core.Word.{checked_add, checked_mul}

pub record CongestionControl (float : Float) : Type 0 where
  pub rtt : ℕ
  pub rtt_variance : ℕ
  pub rtt_alpha : float.F32
  pub rtt_beta : float.F32
  pub packets_lost : ℕ
  pub packets_sent : ℕ
  pub throttle : float.F32
  pub min_throttle : float.F32
  pub max_throttle : float.F32
  pub last_throttle_update : ℕ
  pub throttle_interval : ℕ
  pub use_advanced_throttling : Bool
  pub throttle_scale : ℕ
  pub packet_throttle : ℕ
  pub throttle_acceleration : ℕ
  pub throttle_deceleration : ℕ

-- `(1 - weight) * old + weight * sample`
abbrev pub smoothed : (float : Float) → float.F32 → float.F32 → float.F32 → float.F32
smoothed float weight old sample =
    float.add (float.mul (float.sub (float.literal 1 1) weight) old) (float.mul weight sample)

module _ {float : Float} where
  open float use {F32, literal, lt, eq, add, sub, mul, div, abs, minimum, maximum, from_nat, to_u64}

  -- The time of the creation is an argument.
  unfoldable pub new : F32 → F32 → ℕ → CongestionControl float
  new rtt_alpha rtt_beta time = record {
    rtt = from_millis 50;
    rtt_variance = from_millis 25;
    rtt_alpha = rtt_alpha;
    rtt_beta = rtt_beta;
    packets_lost = 0;
    packets_sent = 0;
    throttle = literal 0 1;
    min_throttle = literal 0 1;
    max_throttle = literal 1 1;
    last_throttle_update = time;
    throttle_interval = from_secs 1;
    use_advanced_throttling = false;
    throttle_scale = 32;
    packet_throttle = 32;
    throttle_acceleration = 2;
    throttle_deceleration = 2;
  }

  unfoldable pub enable_advanced_throttling :
      CongestionControl float → ℕ → ℕ → ℕ → ℕ → CongestionControl float
  enable_advanced_throttling c scale acceleration deceleration interval_ms = record c {
    use_advanced_throttling = true;
    throttle_scale = scale;
    packet_throttle = scale;
    throttle_acceleration = acceleration;
    throttle_deceleration = deceleration;
    throttle_interval = from_millis interval_ms;
  }

  unfoldable pub update_rtt : CongestionControl float → ℕ → CongestionControl float
  update_rtt c sample =
      let sample_ms = from_nat (as_millis sample) in
      let rtt_ms = from_nat (as_millis c.rtt) in
      let diff = abs (sub rtt_ms sample_ms) in
      let var_ms = from_nat (as_millis c.rtt_variance) in
      record c {
        rtt = from_millis (to_u64 (smoothed float c.rtt_alpha rtt_ms sample_ms));
        rtt_variance = from_millis (to_u64 (smoothed float c.rtt_beta var_ms diff));
      }

  -- `None` is the overflow of the multiplication by 4 on `u64`.
  unfoldable pub rto : CongestionControl float → Option ℕ
  rto c = elim (checked_mul (2 ^ 64) 4 (as_millis c.rtt_variance % 2 ^ 64)) [
    | none ↦ none
    | some extra ↦ some (c.rtt + from_millis extra)
  ]

  abbrev pub counted : Option ℕ → (ℕ → CongestionControl float) → Option (CongestionControl float)
  counted none f = none
  counted (some n) f = some (f n)

  -- The counters are `u32`; `None` is their overflow.
  unfoldable pub record_loss : CongestionControl float → Option (CongestionControl float)
  record_loss c =
      counted (checked_add (2 ^ 32) c.packets_lost 1) (λ n. record c { packets_lost = n })

  unfoldable pub record_sent : CongestionControl float → Option (CongestionControl float)
  record_sent c =
      counted (checked_add (2 ^ 32) c.packets_sent 1) (λ n. record c { packets_sent = n })

  unfoldable pub loss_rate : CongestionControl float → F32
  loss_rate c =
      if c.packets_sent == 0
      then literal 0 1
      else div (from_nat c.packets_lost) (from_nat c.packets_sent)

  unfoldable pub update_simple_throttle : CongestionControl float → F32 → CongestionControl float
  update_simple_throttle c rate =
      if lt (literal 5 100) rate
      then record c { throttle = minimum (add c.throttle (literal 1 10)) c.max_throttle }
      else if lt rate (literal 1 100) && lt c.min_throttle c.throttle
      then record c { throttle = maximum (sub c.throttle (literal 5 100)) c.min_throttle }
      else c

  -- The new `packet_throttle`; `None` is the overflow of its growth.
  unfoldable pub next_packet_throttle : CongestionControl float → F32 → Option ℕ
  next_packet_throttle c rate =
      if lt (literal 1 100) rate
      then if ltb c.throttle_deceleration c.packet_throttle
        then some (c.packet_throttle - c.throttle_deceleration)
        else some 0
      else if lt rate (literal 5 1000) && ltb c.packet_throttle c.throttle_scale
      then elim (checked_add (2 ^ 32) c.packet_throttle c.throttle_acceleration) [
        | none ↦ none
        | some n ↦ some (min n c.throttle_scale)
      ]
      else some c.packet_throttle

  -- The share of packets to drop follows the packet throttle.
  abbrev pub with_packet_throttle : CongestionControl float → ℕ → CongestionControl float
  with_packet_throttle c n = record c {
    packet_throttle = n;
    throttle = sub (literal 1 1) (div (from_nat n) (from_nat c.throttle_scale));
  }

  unfoldable pub update_advanced_throttle :
      CongestionControl float → F32 → Option (CongestionControl float)
  update_advanced_throttle c rate = counted (next_packet_throttle c rate) (with_packet_throttle c)

  -- The counters start again.
  abbrev pub restart : ℕ → CongestionControl float → CongestionControl float
  restart now c = record c { packets_lost = 0; packets_sent = 0; last_throttle_update = now }

  abbrev pub restarted :
      ℕ → Option (CongestionControl float) → Option (Bool × CongestionControl float)
  restarted now none = none
  restarted now (some c) = some (true, restart now c)

  -- Whether the throttle was updated, and the state.
  unfoldable pub update_throttle :
      CongestionControl float → ℕ → Option (Bool × CongestionControl float)
  update_throttle c now =
      if ltb (duration_since now c.last_throttle_update) c.throttle_interval
      then some (false, c)
      else if c.use_advanced_throttling
      then restarted now (update_advanced_throttle c (loss_rate c))
      else restarted now (some (update_simple_throttle c (loss_rate c)))

  -- The random number in [0, 1) is an argument.
  unfoldable pub should_drop_unreliable : CongestionControl float → F32 → Bool
  should_drop_unreliable c random =
      if eq c.throttle (literal 0 1) then false else lt random c.throttle

  unfoldable pub set_throttle_range : CongestionControl float → F32 → F32 → CongestionControl float
  set_throttle_range c low high = record c {
    min_throttle = maximum (literal 0 1) (minimum low (literal 1 1));
    max_throttle = maximum (literal 0 1) (minimum high (literal 1 1));
  }

  unfoldable pub configure_throttle : CongestionControl float → ℕ → ℕ → ℕ → CongestionControl float
  configure_throttle c interval_ms acceleration deceleration = record c {
    throttle_interval = from_millis interval_ms;
    throttle_acceleration = acceleration;
    throttle_deceleration = deceleration;
  }

  unfoldable pub reset_stats : CongestionControl float → CongestionControl float
  reset_stats c = record c { packets_lost = 0; packets_sent = 0 }
