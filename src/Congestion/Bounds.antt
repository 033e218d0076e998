-- ===== src/Congestion/Bounds.antt =====
-- The bounds of the packet throttle.
use bitfold.Prelude.{
  ℕ, ◌+◌, ◌-◌, ◌^◌, ◌≤◌, ◌<◌, ◌≡◌, refl, Bool, true, false, some, arith, ltb, min, if◌then◌else◌,
  Bool-cases, inl, inr, not,
}
use bitfold.Core.Float.{Float}
use bitfold.Core.Time.{duration_since}
use bitfold.Congestion.{
  CongestionControl, update_throttle, update_simple_throttle, update_advanced_throttle,
  next_packet_throttle, restart, with_packet_throttle, loss_rate,
}

-- The packet throttle lies between 0 and its scale, and a step of growth fits a `u32`.
pub record IsScaled {float : Float} (c : CongestionControl float) : Type 0 where
  pub bounded : c.packet_throttle ≤ c.throttle_scale
  pub no_overflow : c.throttle_scale + c.throttle_acceleration < 2 ^ 32

module _ {float : Float} where
  next_packet_throttle-le :
      (c : CongestionControl float) (rate : float.F32)
      → IsScaled c
      → (n : ℕ) × (next_packet_throttle c rate ≡ some n)
        × (n ≤ c.throttle_scale)
        × (n ≤ c.packet_throttle + c.throttle_acceleration)
        × (c.packet_throttle ≤ n + c.throttle_deceleration)
  unfolding next_packet_throttle
  next_packet_throttle-le c rate v = elim (Bool-cases (float.lt (float.literal 1 100) rate)) [
    | inl lossy ↦ (
      c.packet_throttle - c.throttle_deceleration,
      ground (arith, v.bounded),
      omega (arith, v.bounded),
      omega arith,
      omega arith,
    )
    | inr fair ↦ elim (Bool-cases (float.lt rate (float.literal 5 1000))) [
      | inl good ↦ (
        min (c.packet_throttle + c.throttle_acceleration) c.throttle_scale,
        ground (arith, v.bounded, v.no_overflow),
        omega arith,
        omega arith,
        omega (arith, v.bounded),
      )
      | inr middling ↦ (c.packet_throttle, ground arith, v.bounded, omega arith, omega arith)
    ]
  ]

  -- What an update leaves as it was, and what it bounds.
  pub record Updated (c c' : CongestionControl float) : Type 0 where
    pub scaled : IsScaled c'
    pub up : c'.packet_throttle ≤ c.packet_throttle + c.throttle_acceleration
    pub down : c.packet_throttle ≤ c'.packet_throttle + c.throttle_deceleration
    pub scale : c'.throttle_scale ≡ c.throttle_scale
    pub estimate : c'.rtt ≡ c.rtt

  simple-Updated :
      (c : CongestionControl float) (now : ℕ) (rate : float.F32)
      → IsScaled c
      → Updated c (restart now (update_simple_throttle c rate))
  unfolding update_simple_throttle
  simple-Updated c now rate v = ground (arith, v.bounded, v.no_overflow)

  -- An update of the throttle never overflows if one step of growth above the scale fits a `u32`. It
  -- takes place exactly if the interval has passed, and then starts the loss counters again; it
  -- keeps the packet throttle between 0 and its scale, moves it by at most one step, and does not
  -- touch the estimate of the round-trip time.
  pub update_throttle-Updated :
      (c : CongestionControl float) (now : ℕ)
      → IsScaled c
      → (b : Bool) × (c' : CongestionControl float) × (update_throttle c now ≡ some (b, c'))
        × Updated c c'
        × (b ≡ not (ltb (duration_since now c.last_throttle_update) c.throttle_interval))
        × (c'.packets_sent ≡ (if b then 0 else c.packets_sent))
        × (c'.packets_lost ≡ (if b then 0 else c.packets_lost))
  unfolding update_throttle update_advanced_throttle
  update_throttle-Updated c now v =
      let early = ltb (duration_since now c.last_throttle_update) c.throttle_interval in
      elim (Bool-cases early) [
        | inl soon ↦
            (false, c, rw soon, omega (arith, v.bounded, v.no_overflow), ground arith, refl, refl)
        | inr late ↦ elim (Bool-cases c.use_advanced_throttling) [
          | inl advanced ↦
              let (n, e, le, up, down) = next_packet_throttle-le c (loss_rate c) v in
              (
                true,
                restart now (with_packet_throttle c n),
                rw (late, e, advanced),
                omega (arith, v.no_overflow, le, up, down),
                ground arith,
                refl,
                refl,
              )
          | inr simple ↦ (
            true,
            restart now (update_simple_throttle c (loss_rate c)),
            rw (late, simple),
            simple-Updated c now (loss_rate c) v,
            ground arith,
            refl,
            refl,
          )
        ]
      ]
