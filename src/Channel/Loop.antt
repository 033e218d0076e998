-- ===== src/Channel/Loop.antt =====
-- The delivery loop of `process_ordered`.
use bitfold.Prelude.{
  ℕ, zero, suc, ◌+◌, ◌≤◌, ◌<◌, ◌≡◌, refl, ap, ◌∙◌, List, [], ◌∷◌, none, some, arith, length,
  if◌then◌else◌, Option-cases, ltb, leb, ◌&&◌, inl, inr,
}
use bitfold.Prelude.Map.{lookup, remove, lookup-remove, length-remove-lt}
use bitfold.Core.Shared.{SharedBytes}
use bitfold.Channel.{ChannelState, deliver_ready}
use bitfold.Sequence.Order.{next}

-- The packets `m`, `m + 1`, …, `m + n - 1` of a stream.
abbrev pub consecutive : (ℕ → SharedBytes) → ℕ → ℕ → List SharedBytes
consecutive f m zero = []
consecutive f m (suc n) = f m ∷ consecutive f (suc m) n

-- The buffered packets are packets of the stream, below the number 65535.
abbrev pub FromStream : (ℕ → SharedBytes) → List (ℕ × SharedBytes) → Type 0
FromStream f b = (k : ℕ) (d : SharedBytes) → lookup k b ≡ some d → (k < 65535) × (d ≡ f k)

-- What the loop does to a channel that expects the number `m`: it delivers `n` packets.
pub record Drained (f : ℕ → SharedBytes) (m : ℕ) (c : ChannelState) (n : ℕ) (c' : ChannelState)
    : Type 0 where
  pub expected : c'.expected_sequence ≡ m + n
  pub latest : c'.latest_sequence ≡ c.latest_sequence
  pub range : m + n ≤ 65535
  pub stuck : lookup (m + n) c'.buffered_packets ≡ none
  pub taken : (k : ℕ) → m ≤ k → k < m + n → lookup k c.buffered_packets ≡ some (f k)
  pub left :
      (k : ℕ)
      → lookup k c'.buffered_packets
        ≡ (if leb m k && ltb k (m + n) then none else lookup k c.buffered_packets)

FromStream-remove :
    (f : ℕ → SharedBytes) (b : List (ℕ × SharedBytes)) (j : ℕ)
    → FromStream f b
    → FromStream f (remove j b)
FromStream-remove f b j h k d e = ground (arith, lookup-remove j k b, h k d)

-- The channel after one round of the loop.
abbrev pub advanced : ChannelState → ChannelState
advanced c = record c {
  expected_sequence = next c.expected_sequence;
  buffered_packets = remove c.expected_sequence c.buffered_packets;
}

Drained-none :
    (f : ℕ → SharedBytes) (m : ℕ) (c : ChannelState)
    → c.expected_sequence ≡ m
    → m ≤ 65535
    → lookup m c.buffered_packets ≡ none
    → Drained f m c 0 c
Drained-none f m c e hm missing = record {
  expected = omega arith;
  latest = refl;
  range = omega arith;
  stuck = ap (λ k. lookup k c.buffered_packets) same ∙ missing;
  taken = λ k lo hi. absurd (omega arith);
  left = λ k. ground arith;
}
  where
    same : m + 0 ≡ m
    same = omega arith

Drained-suc :
    (f : ℕ → SharedBytes) (m n : ℕ) (c c' : ChannelState)
    → c.expected_sequence ≡ m
    → lookup m c.buffered_packets ≡ some (f m)
    → Drained f (suc m) (advanced c) n c'
    → Drained f m c (suc n) c'
Drained-suc f m n c c' e found r = record {
  expected = omega (arith, r.expected);
  latest = r.latest;
  range = omega (arith, r.range);
  stuck = ap (λ k. lookup k c'.buffered_packets) same ∙ r.stuck;
  taken = λ k lo hi.
      ground (arith, found, lookup-remove c.expected_sequence k c.buffered_packets, r.taken k);
  left = λ k. ground (arith, lookup-remove c.expected_sequence k c.buffered_packets, r.left k);
}
  where
    same : m + suc n ≡ suc m + n
    same = omega arith

pub deliver_ready-Drained :
    (f : ℕ → SharedBytes) (fuel m : ℕ) (c : ChannelState)
    → length c.buffered_packets < fuel
    → c.expected_sequence ≡ m
    → m ≤ 65535
    → FromStream f c.buffered_packets
    → (n : ℕ) × (c' : ChannelState) × (deliver_ready fuel c ≡ some (consecutive f m n, c'))
      × Drained f m c n c'
unfolding deliver_ready
deliver_ready-Drained f zero m c enough e hm h = absurd (omega arith)
deliver_ready-Drained f (suc fuel) m c enough e hm h =
    elim (Option-cases (lookup m c.buffered_packets)) [
      | inl missing ↦
          let stop : lookup c.expected_sequence c.buffered_packets ≡ none = rw e missing in
          (0, c, rw (stop, deliver_ready), Drained-none f m c e hm missing)
      | inr (d, found) ↦
          let low : m < 65535 = (h m d found).0 in
          let go : lookup c.expected_sequence c.buffered_packets ≡ some d = rw e found in
          let same : d ≡ f m = (h m d found).1 in
          let shrinks = length-remove-lt c.expected_sequence c.buffered_packets d go in
          let (n, c', done, r) =
            deliver_ready-Drained f fuel (suc m) (advanced c) (omega (arith, shrinks)) (omega arith)
              (omega arith) (FromStream-remove f c.buffered_packets c.expected_sequence h) in
          (
            suc n,
            c',
            rw (go, done, same, deliver_ready),
            Drained-suc f m n c c' e (found ∙ ap (λ (x : SharedBytes). some x) same) r,
          )
    ]
