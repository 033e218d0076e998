-- ===== src/SessionManager/Tally.antt =====
-- The counts of the sessions of each IP address are exact and within their limit.
pub mod Polled
pub mod Dropped
use bitfold.Prelude.{
  ◌++◌, ==→eq, ℕ, zero, suc, ◌+◌, ◌-◌, ◌≤◌, ◌≡◌, ◌≢◌, refl, sym, ap, ◌∙◌, ◌⊎◌, inl, inr, arith,
  Bool, true, false, not, ◌&&◌, List, [], ◌∷◌, Option, none, some, ltb, ◌==◌, leb, if◌then◌else◌,
  Bool-cases, Option-cases, subst,
}
use bitfold.Prelude.Map.{lookup, insert, remove, lookup-remove, lookup-insert}
use bitfold.Prelude.Map.Distinct.{Distinct, remove_missing, remove-Distinct, insert-Distinct}
use bitfold.Core.Config.{Config}
use bitfold.Core.Word.{checked_sub}
use bitfold.Session.{SocketEvent, Action, send_action, emit_action}
use bitfold.SessionManager.{
  SessionTrait, SessionManager, or_zero, handle_actions, increment_duplicate_count,
  decrement_duplicate_count, can_accept_duplicate,
}

-- How many entries of a map have that IP address.
abbrev pub number {ℓ} : {V : Type ℓ} → (ℕ → ℕ) → ℕ → List (ℕ × V) → ℕ
number ip j [] = 0
number ip j ((a, v) ∷ m) = (if ip a == j then 1 else 0) + number ip j m

module _ {ℓ} {V : Type ℓ} (ip : ℕ → ℕ) (j : ℕ) where
  number-remove :
      (k : ℕ) (v : V) (m : List (ℕ × V))
      → Distinct m
      → lookup k m ≡ some v
      → number ip j m ≡ (if ip k == j then 1 else 0) + number ip j (remove k m)
  unfolding lookup remove
  number-remove k v [] d h = ground arith
  number-remove k v ((a, w) ∷ m) d h = ground (arith, number-remove k v m d.1, remove_missing k m)

  -- A new value for a key that is present.
  pub number-insert_present :
      (k : ℕ) (v w : V) (m : List (ℕ × V))
      → Distinct m
      → lookup k m ≡ some v
      → number ip j (insert k w m) ≡ number ip j m
  unfolding insert
  number-insert_present k v w m d h = sym (number-remove k v m d h)

  pub number-insert_new :
      (k : ℕ) (w : V) (m : List (ℕ × V))
      → lookup k m ≡ none
      → number ip j (insert k w m) ≡ (if ip k == j then 1 else 0) + number ip j m
  unfolding insert
  number-insert_new k w m h = rw (remove_missing k m h) refl

-- Each address has one session, the count of each IP address is the number of its sessions, and if
-- there is a limit, no IP address has more.
pub record IsTallied {t : SessionTrait} (ip : ℕ → ℕ) (m : SessionManager t) : Type 0 where
  pub distinct : Distinct m.sessions
  pub tally : (j : ℕ) → or_zero (lookup j m.duplicate_peer_count) ≡ number ip j m.sessions
  pub limited :
      (m.config.max_duplicate_peers ≡ 0)
      ⊎ ((j : ℕ) → number ip j m.sessions ≤ m.config.max_duplicate_peers)

-- The fields that the tally is about.
pub record Same {t : SessionTrait} (m n : SessionManager t) : Type 0 where
  pub sessions : n.sessions ≡ m.sessions
  pub counts : n.duplicate_peer_count ≡ m.duplicate_peer_count
  pub config : n.config ≡ m.config

module _ {t : SessionTrait} where
  pub handle_actions-Same :
      (m : SessionManager t) (a : ℕ) (actions : List Action) → Same m (handle_actions m a actions)
  unfolding handle_actions
  handle_actions-Same m a [] = record { sessions = refl; counts = refl; config = refl }
  handle_actions-Same m a (send_action out ∷ actions) =
      let s =
        handle_actions-Same (record m { pending_sends = m.pending_sends ++ (a, out) ∷ [] }) a
          actions in
      record { sessions = s.sessions; counts = s.counts; config = s.config }
  handle_actions-Same m a (emit_action event ∷ actions) =
      let s =
        handle_actions-Same (record m { pending_events = m.pending_events ++ event ∷ [] }) a
          actions in
      record { sessions = s.sessions; counts = s.counts; config = s.config }

-- The map of the counts with one taken off.
abbrev lowered : ℕ → ℕ → List (ℕ × ℕ) → List (ℕ × ℕ)
lowered i n counts = if n == 0 then remove i (insert i n counts) else insert i n counts

lookup-lowered :
    (i n j : ℕ) (counts : List (ℕ × ℕ))
    → or_zero (lookup j (lowered i n counts)) ≡ (if i == j then n else or_zero (lookup j counts))
lookup-lowered i n j counts = elim (Bool-cases (n == 0)) [
  | inl z ↦
      rw (z, lookup-remove i j (insert i n counts), lookup-insert i j n counts) (ground (arith, z))
  | inr s ↦ rw (s, lookup-insert i j n counts) (ground (arith, s))
]

module _ {t : SessionTrait} (ip : ℕ → ℕ) where
  pub Same-IsTallied : {m n : SessionManager t} → Same m n → IsTallied ip m → IsTallied ip n
  Same-IsTallied s v = record {
    distinct = rw s.sessions v.distinct;
    tally = λ j. rw (s.counts, s.sessions) (v.tally j);
    limited = rw (s.sessions, s.config) v.limited;
  }

  pub replace-IsTallied :
      (m : SessionManager t) (a : ℕ) (v w : t.Session)
      → lookup a m.sessions ≡ some v
      → IsTallied ip m
      → IsTallied ip (record m { sessions = insert a w m.sessions })
  replace-IsTallied m a v w present h = record {
    distinct = insert-Distinct a w m.sessions h.distinct;
    tally = λ j. h.tally j ∙ sym (number-insert_present ip j a v w m.sessions h.distinct present);
    limited = elim h.limited [
      | inl unlimited ↦ inl unlimited
      | inr most ↦
          inr (λ j. rw (number-insert_present ip j a v w m.sessions h.distinct present) (most j))
    ];
  }

  -- A new session is accepted only below the limit.
  accepted-lt :
      (m : SessionManager t) (a : ℕ)
      → can_accept_duplicate ip m a ≡ true
      → IsTallied ip m
      → (m.config.max_duplicate_peers ≡ 0)
        ⊎ (suc (number ip (ip a) m.sessions) ≤ m.config.max_duplicate_peers)
  unfolding can_accept_duplicate
  accepted-lt m a e h = ground (arith, e, h.tally (ip a))

  pub add-IsTallied :
      (m : SessionManager t) (a : ℕ) (w : t.Session)
      → lookup a m.sessions ≡ none
      → can_accept_duplicate ip m a ≡ true
      → IsTallied ip m
      → IsTallied ip
          (increment_duplicate_count ip (record m { sessions = insert a w m.sessions }) a)
  unfolding increment_duplicate_count
  add-IsTallied m a w missing e h = record {
    distinct = insert-Distinct a w m.sessions h.distinct;
    tally =
        λ j. rw (number-insert_new ip j a w m.sessions missing, lookup-insert (ip a) j) (counted j);
    limited = elim (accepted-lt m a e h) [
      | inl unlimited ↦ inl unlimited
      | inr less ↦ elim h.limited [
        | inl unlimited ↦ inl unlimited
        | inr most ↦
            inr (λ j. rw (number-insert_new ip j a w m.sessions missing) (below j less (most j)))
      ]
    ];
  }
    where
      counted :
          (j : ℕ)
          → or_zero (
              if ip a == j
              then some (or_zero (lookup (ip a) m.duplicate_peer_count) + 1)
              else lookup j m.duplicate_peer_count)
            ≡ (if ip a == j then 1 else 0) + number ip j m.sessions
      counted j = elim (Bool-cases (ip a == j)) [
        | inl same ↦
            let t =
              subst (λ i. or_zero (lookup (ip a) m.duplicate_peer_count) ≡ number ip i m.sessions)
                (==→eq (ip a) j same) (h.tally (ip a)) in
            rw same (omega (arith, t))
        | inr other ↦ rw other (omega (arith, h.tally j))
      ]

      below :
          (j : ℕ)
          → suc (number ip (ip a) m.sessions) ≤ m.config.max_duplicate_peers
          → number ip j m.sessions ≤ m.config.max_duplicate_peers
          → (if ip a == j then 1 else 0) + number ip j m.sessions ≤ m.config.max_duplicate_peers
      below j less most = elim (Bool-cases (ip a == j)) [
        | inl same ↦
            let l =
              subst (λ i. suc (number ip i m.sessions) ≤ m.config.max_duplicate_peers)
                (==→eq (ip a) j same) less in
            rw same (omega (arith, l))
        | inr other ↦ rw other (omega (arith, most))
      ]

  -- Dropping a session that there is takes one off the count, which does not underflow.
  pub remove-IsTallied :
      (m : SessionManager t) (a : ℕ) (v : t.Session)
      → lookup a m.sessions ≡ some v
      → IsTallied ip m
      → (n : SessionManager t) × (decrement_duplicate_count ip
            (record m { sessions = remove a m.sessions })
            a
          ≡ some n)
        × (n.sessions ≡ remove a m.sessions)
        × IsTallied ip n
  unfolding decrement_duplicate_count
  remove-IsTallied m a v present h =
      let rest = remove a m.sessions in
      let counts = m.duplicate_peer_count in
      let here : (ip a == ip a) ≡ true = ground arith in
      let counted : or_zero (lookup (ip a) counts) ≡ suc (number ip (ip a) rest) =
        h.tally (ip a)
        ∙ number-remove ip (ip a) a v m.sessions h.distinct present
        ∙ rw here (omega arith) in
      elim (Option-cases (lookup (ip a) counts)) [
        | inl missing ↦ absurd (omega (arith, counted, ap or_zero missing))
        | inr (count, e) ↦
            let one : count ≡ suc (number ip (ip a) rest) = sym (ap or_zero e) ∙ counted in
            let enough : leb 1 count ≡ true = ground (arith, one) in
            (
              record m {
                sessions = rest;
                duplicate_peer_count = lowered (ip a) (count - 1) counts;
              },
              rw (decrement_duplicate_count, e, enough) refl,
              refl,
              record {
                distinct = remove-Distinct a m.sessions h.distinct;
                tally = λ j. lookup-lowered (ip a) (count - 1) j counts ∙ taken count one j;
                limited = elim h.limited [
                  | inl unlimited ↦ inl unlimited
                  | inr most ↦ inr (λ j.
                      omega (arith, most j, number-remove ip j a v m.sessions h.distinct present))
                ];
              },
            )
      ]
    where
      taken :
          (count : ℕ)
          → count ≡ suc (number ip (ip a) (remove a m.sessions))
          → (j : ℕ)
          → (if ip a == j then count - 1 else or_zero (lookup j m.duplicate_peer_count))
            ≡ number ip j (remove a m.sessions)
      taken count one j =
          let split = h.tally j ∙ number-remove ip j a v m.sessions h.distinct present in
          elim (Bool-cases (ip a == j)) [
            | inl same ↦
                let t =
                  subst (λ i. count ≡ suc (number ip i (remove a m.sessions))) (==→eq (ip a) j same)
                    one in
                rw same (omega (arith, t))
            | inr other ↦ rw other (ground (arith, split, other))
          ]
