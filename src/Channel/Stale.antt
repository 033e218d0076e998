-- ===== src/Channel/Stale.antt =====
-- A packet that arrives again after its delivery.
use bitfold.Prelude.{
  ℕ, zero, suc, ◌+◌, ◌<◌, ◌≡◌, refl, ap, List, [], ◌∷◌, ◌++◌, some, arith, true, ◌==◌, ◌∙◌,
}
use bitfold.Prelude.Map.{lookup, insert, remove}
use bitfold.Sequence.Order.{next}
use bitfold.Core.Shared.{SharedBytes}
use bitfold.Channel.{ChannelState, new, deliver_ready, process_ordered}
use bitfold.Channel.Loop.{consecutive}
use bitfold.Channel.Ordered.{receive_all}

-- `m`, …, `m + n - 1`.
unfoldable pub upward : ℕ → ℕ → List ℕ
upward m zero = []
upward m (suc n) = m ∷ upward (suc m) n

-- It expects `m`, and the packet `d` waits under the number 0.
abbrev holding : ℕ → SharedBytes → ChannelState
holding m d = record { expected_sequence = m; buffered_packets = (0, d) ∷ []; latest_sequence = 0 }

==-refl : (m : ℕ) → (m == m) ≡ true
==-refl m = ground arith

next_step :
    (d e : SharedBytes) (m : ℕ)
    → suc m < 65535
    → process_ordered (holding (suc m) d) (suc m) e ≡ some (e ∷ [], holding (suc (suc m)) d)
unfolding process_ordered deliver_ready lookup insert remove
next_step d e m h =
    let up : next (suc m) ≡ suc (suc m) = omega arith in ground (arith, ==-refl m, up)

-- It expects `m`, and nothing waits.
abbrev pub empty : ℕ → ChannelState
empty m = record { expected_sequence = m; buffered_packets = []; latest_sequence = 0 }

last_step :
    (d e : SharedBytes) → process_ordered (holding 65535 d) 65535 e ≡ some (e ∷ d ∷ [], empty 1)
unfolding process_ordered deliver_ready lookup insert remove
last_step d e = refl

-- The packets up to 65535, while the packet 0 waits.
rest_arrives :
    (f : ℕ → SharedBytes) (n m : ℕ)
    → suc m + n ≡ 65535
    → receive_all f (holding (suc m) (f 0)) (upward (suc m) (suc n))
      ≡ some (consecutive f (suc m) (suc n) ++ f 0 ∷ [], empty 1)
unfolding upward
rest_arrives f zero m e =
    let top : suc m ≡ 65535 = omega arith in
    let final : process_ordered (holding (suc m) (f 0)) (suc m) (f (suc m))
        ≡ some (f (suc m) ∷ f 0 ∷ [], empty 1) =
      ap (λ k. process_ordered (holding k (f 0)) k (f (suc m))) top ∙ last_step (f 0) (f (suc m)) in
    rw final refl
rest_arrives f (suc n) m e =
    rw (next_step (f 0) (f (suc m)) m (omega arith), rest_arrives f n (suc m) (omega arith)) refl

first_step : (d : SharedBytes) → process_ordered new 0 d ≡ some (d ∷ [], empty 1)
unfolding process_ordered deliver_ready lookup insert remove new
first_step d = refl

again_step : (d : SharedBytes) → process_ordered (empty 1) 0 d ≡ some ([], holding 1 d)
unfolding process_ordered deliver_ready lookup insert remove
again_step d = refl

-- A packet is delivered twice. When the packet 0 arrives twice at a new channel, and then 1 to 65535
-- arrive in order, the packets 0 to 65535 are delivered in order, and behind them the packet 0 once
-- more, as the successor of 65535; the channel then expects 1.
pub stale_packet_delivered :
    (f : ℕ → SharedBytes)
    → receive_all f new (0 ∷ 0 ∷ upward 1 65535) ≡ some (consecutive f 0 65536 ++ f 0 ∷ [], empty 1)
stale_packet_delivered f = rw (first_step (f 0), again_step (f 0), rest_arrives f 65534 0 refl) refl
