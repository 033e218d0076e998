-- ===== src/Channel/Ordered.antt =====
-- Ordered delivery of a stream of packets, in whatever order they arrive.
use bitfold.Prelude.{
  ℕ, zero, suc, ◌+◌, ◌≤◌, ◌<◌, ◌≡◌, ◌⊎◌, inl, inr, refl, ap, subst, List, [], ◌∷◌, ◌++◌, Option,
  none, some, arith, length, All, Among,
}
use bitfold.Prelude.Map.{lookup, insert, lookup-insert}
use bitfold.Core.Shared.{SharedBytes}
use bitfold.Channel.{ChannelState, new, process_ordered}
use bitfold.Channel.Loop.{consecutive, FromStream, Drained, deliver_ready-Drained}

-- The arrivals of a stream, one call of `process_ordered` each, with all that they deliver.
abbrev appending :
    List SharedBytes
    → Option (List SharedBytes × ChannelState)
    → Option (List SharedBytes × ChannelState)
appending ds none = none
appending ds (some (es, c)) = some (ds ++ es, c)

abbrev and_go_on :
    Option (List SharedBytes × ChannelState)
    → (ChannelState → Option (List SharedBytes × ChannelState))
    → Option (List SharedBytes × ChannelState)
and_go_on none go = none
and_go_on (some (ds, c)) go = appending ds (go c)

abbrev pub receive_all :
    (ℕ → SharedBytes) → ChannelState → List ℕ → Option (List SharedBytes × ChannelState)
receive_all f c [] = some ([], c)
receive_all f c (k ∷ ks) = and_go_on (process_ordered c k (f k)) (λ c'. receive_all f c' ks)

-- A channel that has seen the numbers `seen`, and has delivered those below `m`.
record Inv (f : ℕ → SharedBytes) (seen : List ℕ) (m : ℕ) (c : ChannelState) : Type 0 where
  expected : c.expected_sequence ≡ m
  range : m ≤ 65535
  stream : FromStream f c.buffered_packets
  kept : (k : ℕ) → Among k seen → m ≤ k → lookup k c.buffered_packets ≡ some (f k)
  below : (k : ℕ) → k < m → Among k seen
  stored : (k : ℕ) (d : SharedBytes) → lookup k c.buffered_packets ≡ some d → Among k seen
  stuck : lookup m c.buffered_packets ≡ none

new-Inv : (f : ℕ → SharedBytes) → Inv f [] 0 new
unfolding new lookup
new-Inv f = record {
  expected = refl;
  range = omega arith;
  stream = λ k d e. cc;
  kept = λ k a. absurd a;
  below = λ k h. absurd (omega arith);
  stored = λ k d e. cc;
  stuck = refl;
}

module _ (f : ℕ → SharedBytes) (seen : List ℕ) (m j n : ℕ) (c c' : ChannelState) (low : j < 65535)
    (v : Inv f seen m c)
    (r : Drained f m (record c { buffered_packets = insert j (f j) c.buffered_packets }) n c') where
  after-Inv : Inv f (j ∷ seen) (m + n) c'
  after-Inv = record {
    expected = r.expected;
    range = r.range;
    stream =
        λ k d e. ground (arith, r.left k, lookup-insert j k (f j) c.buffered_packets, v.stream k d);
    kept = λ k a h. ground (arith, r.left k, lookup-insert j k (f j) c.buffered_packets, v.kept k);
    below = λ k h.
        ground (
          arith,
          v.below k,
          r.taken k,
          lookup-insert j k (f j) c.buffered_packets,
          v.stored k (f k),
        );
    stored =
        λ k d e. ground (arith, r.left k, lookup-insert j k (f j) c.buffered_packets, v.stored k d);
    stuck = r.stuck;
  }

insert-FromStream :
    (f : ℕ → SharedBytes) (b : List (ℕ × SharedBytes)) (j : ℕ)
    → j < 65535
    → FromStream f b
    → FromStream f (insert j (f j) b)
insert-FromStream f b j low h k d e = ground (arith, lookup-insert j k (f j) b, h k d)

process_ordered-Inv :
    (f : ℕ → SharedBytes) (seen : List ℕ) (m j : ℕ) (c : ChannelState)
    → j < 65535
    → Inv f seen m c
    → (n : ℕ) × (c' : ChannelState) × (process_ordered c j (f j) ≡ some (consecutive f m n, c'))
      × Inv f (j ∷ seen) (m + n) c'
unfolding process_ordered
process_ordered-Inv f seen m j c low v =
    let b = insert j (f j) c.buffered_packets in
    let (n, c', done, r) =
      deliver_ready-Drained f (length b + 1) m (record c { buffered_packets = b }) (omega arith)
        v.expected v.range (insert-FromStream f c.buffered_packets j low v.stream) in
    (n, c', done, after-Inv f seen m j n c c' low v r)

consecutive-append :
    (f : ℕ → SharedBytes) (m n k : ℕ)
    → consecutive f m n ++ consecutive f (m + n) k ≡ consecutive f m (n + k)
consecutive-append f m zero k =
    let left : m + 0 ≡ m = omega arith in let right : 0 + k ≡ k = omega arith in rw (left, right)
consecutive-append f m (suc n) k =
    let left : m + suc n ≡ suc m + n = omega arith in
    let right : suc n + k ≡ suc (n + k) = omega arith in
    rw (left, right) (ap (λ l. f m ∷ l) (consecutive-append f (suc m) n k))

abbrev reverse_onto : List ℕ → List ℕ → List ℕ
reverse_onto [] seen = seen
reverse_onto (k ∷ ks) seen = reverse_onto ks (k ∷ seen)

receive_all-Inv :
    (f : ℕ → SharedBytes) (ks seen : List ℕ) (m : ℕ) (c : ChannelState)
    → All (λ k. k < 65535) ks
    → Inv f seen m c
    → (n : ℕ) × (c' : ChannelState) × (receive_all f c ks ≡ some (consecutive f m n, c'))
      × Inv f (reverse_onto ks seen) (m + n) c'
receive_all-Inv f [] seen m c h v =
    let same : m ≡ m + 0 = omega arith in (0, c, refl, subst (λ k. Inv f seen k c) same v)
receive_all-Inv f (k ∷ ks) seen m c h v =
    let (n, c1, done, v1) = process_ordered-Inv f seen m k c h.0 v in
    let (p, c2, more, v2) = receive_all-Inv f ks (k ∷ seen) (m + n) c1 h.1 v1 in
    let same : m + n + p ≡ m + (n + p) = omega arith in
    (
      n + p,
      c2,
      rw (done, more, consecutive-append f m n p),
      subst (λ i. Inv f (reverse_onto ks (k ∷ seen)) i c2) same v2,
    )

Among-reverse_onto :
    (k : ℕ) (ks seen : List ℕ) → Among k (reverse_onto ks seen) → Among k ks ⊎ Among k seen
Among-reverse_onto k [] seen h = inr h
Among-reverse_onto k (j ∷ ks) seen h = ground (arith, Among-reverse_onto k ks (j ∷ seen) h)

reverse_onto-Among :
    (k : ℕ) (ks seen : List ℕ) → Among k ks ⊎ Among k seen → Among k (reverse_onto ks seen)
reverse_onto-Among k [] seen h = ground arith
reverse_onto-Among k (j ∷ ks) seen h = reverse_onto-Among k ks (j ∷ seen) (ground arith)

-- In-order delivery, exactly once and without loss. For packets of a stream that arrive in any order
-- and any number of times, with numbers below 65535, a new channel delivers in all exactly the
-- packets 0, 1, …, m - 1 of the stream, in this order, where m is the least number that has not
-- arrived; the delivery loop always ends.
pub in_order_delivery :
    (f : ℕ → SharedBytes) (ks : List ℕ)
    → All (λ k. k < 65535) ks
    → (m : ℕ) × (c : ChannelState) × (receive_all f new ks ≡ some (consecutive f 0 m, c))
      × ((k : ℕ) → k < m → Among k ks)
      × ¬ Among m ks
in_order_delivery f ks h =
    let (n, c, done, v0) = receive_all-Inv f ks [] 0 new h (new-Inv f) in
    let same : 0 + n ≡ n = omega arith in
    let v = subst (λ i. Inv f (reverse_onto ks []) i c) same v0 in
    (
      n,
      c,
      done,
      λ k below. not_empty k (Among-reverse_onto k ks [] (v.below k below)),
      λ a. missed (v.kept n (reverse_onto-Among n ks [] (inl a)) (omega arith)) v.stuck,
    )
  where
    not_empty : (k : ℕ) → Among k ks ⊎ ⊥ → Among k ks
    not_empty k (inl a) = a
    not_empty k (inr a) = absurd a

    missed : {o : Option SharedBytes} {d : SharedBytes} → o ≡ some d → o ≡ none → ⊥
    missed e e' = cc
