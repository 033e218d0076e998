-- ===== src/Acknowledgment/Bitfield.antt =====
-- The bits that `ack_bitfield` sets, and what the loop over them acknowledges.
use bitfold.Prelude.{
  ℕ, zero, suc, ◌+◌, ◌*◌, ◌/◌, ◌%◌, ◌^◌, ◌≤◌, ◌<◌, ◌≡◌, refl, ap, ◌∙◌, sym, Bool, false, ◌&&◌, ◌||◌,
  none, arith, ◌==◌, if◌then◌else◌, Bool-cases, Option-cases, inl, inr,
}
use native.Mathlib.Nat.{div-eq_of_lt, le-mul_of_pos_right, pow-succ'}
use bitfold.Prelude.Map.{lookup, lookup-remove}
use bitfold.Core.Float.{Float}
use bitfold.Core.Word.{or_bit}
use bitfold.Sequence.Order.{wrapping_sub}
use bitfold.Sequence.Buffer.{exists}
use bitfold.Acknowledgment.{AcknowledgmentHandler, bitfield_from, acknowledged, acknowledged_bits}

-- A bit above a number is 0.
or_bit-above : (field mask : ℕ) → field < mask → or_bit field mask ≡ field + mask
or_bit-above field mask h = let none_there : field / mask ≡ 0 = div-eq_of_lt h in rw none_there

power-pos : (n : ℕ) → 1 ≤ 2 ^ n
power-pos zero = omega arith
power-pos (suc n) = omega (arith, power-pos n, pow-succ' 2 n)

doubled :
    (mask n : ℕ)
    → mask * 2 ^ suc (suc n) ≤ 2 ^ 32
    → (mask * 2 < 2 ^ 32) × (mask * 2 * 2 ^ suc n ≤ 2 ^ 32)
doubled mask n h =
    let p = 2 ^ n in
    let double : 2 ^ suc (suc n) ≡ 2 * (2 * p) =
      omega (arith, pow-succ' 2 n, pow-succ' 2 (suc n)) in
    let once : 2 ^ suc n ≡ 2 * p = pow-succ' 2 n in
    let bound : mask * (2 * (2 * p)) ≤ 2 ^ 32 = rw double at h in
    (small mask p (power-pos n) bound, rw once (grind arith))
  where
    small : (mask p : ℕ) → 1 ≤ p → mask * (2 * (2 * p)) ≤ 2 ^ 32 → mask * 2 < 2 ^ 32
    small mask p pos bound = grind (arith, le-mul_of_pos_right {m = p} mask pos)

-- What the loop over the bits acknowledges.
abbrev pub acked : ℕ → ℕ → ℕ → ℕ → ℕ → Bool
acked zero i seq field k = false
acked (suc turns) i seq field k =
    (field % 2 == 1 && wrapping_sub seq i == k) || acked turns (suc i) seq (field / 2) k

module _ {float : Float} where
  -- The bits from the `i`-th on, the lowest first.
  abbrev pub bits : ℕ → ℕ → ℕ → AcknowledgmentHandler float → ℕ
  bits zero i recent h = 0
  bits (suc turns) i recent h =
      (if exists h.received_packets (wrapping_sub recent i) then 1 else 0)
      + 2 * bits turns (suc i) recent h

  pub bitfield_from-bits :
      (turns i recent field mask : ℕ) (h : AcknowledgmentHandler float)
      → field < mask
      → mask * 2 ^ turns ≤ 2 ^ 32
      → bitfield_from turns i recent field mask h ≡ field + mask * bits turns i recent h
  unfolding bitfield_from
  bitfield_from-bits zero i recent field mask h less bound = omega arith
  bitfield_from-bits (suc zero) i recent field mask h less bound =
      elim (Bool-cases (exists h.received_packets (wrapping_sub recent i))) [
        | inl there ↦ rw there (or_bit-above field mask less ∙ grind arith)
        | inr absent ↦ rw absent (omega arith)
      ]
  bitfield_from-bits (suc (suc turns)) i recent field mask h less bound =
      let (room, still) = doubled mask turns bound in
      let shift : mask * 2 % 2 ^ 32 ≡ mask * 2 = omega arith in
      elim (Bool-cases (exists h.received_packets (wrapping_sub recent i))) [
        | inl there ↦
            rw (there, shift, or_bit-above field mask less)
              (bitfield_from-bits (suc turns) (suc i) recent (field + mask) (mask * 2) h
                  (omega arith) still
                ∙ grind arith)
        | inr absent ↦
            rw (absent, shift)
              (bitfield_from-bits (suc turns) (suc i) recent field (mask * 2) h (omega arith) still
                ∙ grind arith)
      ]

  pub lookup-acknowledged :
      (s now k : ℕ) (h : AcknowledgmentHandler float)
      → lookup k (acknowledged s now h).sent_packets
        ≡ (if s == k then none else lookup k h.sent_packets)
  unfolding acknowledged
  lookup-acknowledged s now k h = elim (Option-cases (lookup s h.sent_packets)) [
    | inl missing ↦ rw (missing, acknowledged) (ground (arith, absent missing))
    | inr (p, found) ↦ rw (found, acknowledged) (lookup-remove s k h.sent_packets)
  ]
    where
      absent : lookup s h.sent_packets ≡ none → s ≡ k → lookup k h.sent_packets ≡ none
      absent missing e = ap (λ j. lookup j h.sent_packets) (sym e) ∙ missing

  pub lookup-acknowledged_bits :
      (turns i seq field now k : ℕ) (h : AcknowledgmentHandler float)
      → lookup k (acknowledged_bits turns i seq field now h).sent_packets
        ≡ (if acked turns i seq field k then none else lookup k h.sent_packets)
  unfolding acknowledged_bits
  lookup-acknowledged_bits zero i seq field now k h = refl
  lookup-acknowledged_bits (suc turns) i seq field now k h = ground (
    arith,
    lookup-acknowledged (wrapping_sub seq i) now k h,
    lookup-acknowledged_bits turns (suc i) seq (field / 2) now k
        (if field % 2 == 1 then acknowledged (wrapping_sub seq i) now h else h),
  )
