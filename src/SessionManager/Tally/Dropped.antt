-- ===== src/SessionManager/Tally/Dropped.antt =====
-- The regular update, the sessions that are dropped, and the whole poll.
use bitfold.Prelude.{
  ℕ, ◌≡◌, refl, sym, ap, ◌∙◌, inl, inr, arith, Bool, true, false, List, [], ◌∷◌, Option, none, some,
  ◌==◌, if◌then◌else◌, Bool-cases, ==→eq, Option-cases, subst,
}
use bitfold.Prelude.Map.{lookup, remove, lookup-remove}
use bitfold.Prelude.Map.Distinct.{Distinct, remove_missing}
use bitfold.Core.Config.{Config}
use bitfold.SessionManager.{
  SessionTrait, SessionManager, or_zero, handle_actions, receive_all, handle_events,
  unestablished_session_count,
}
use bitfold.SessionManager.Poll.{
  updated_first, update_each, update_sessions, collect_drops, drop_each, drop_sessions, poll,
}
use bitfold.SessionManager.Tally.{
  number, IsTallied, Same, handle_actions-Same, Same-IsTallied, remove-IsTallied,
}
use bitfold.SessionManager.Tally.Polled.{Tallies, receive_all-IsTallied, handle_events-IsTallied}

-- Other sessions at the same addresses.
record SameKeys {V : Type 0} (xs ys : List (ℕ × V)) : Type 0 where
  absent : (k : ℕ) → lookup k xs ≡ none → lookup k ys ≡ none
  numbers : (ip : ℕ → ℕ) (j : ℕ) → number ip j ys ≡ number ip j xs
  distinct : Distinct xs → Distinct ys

SameKeys-cons :
    {V : Type 0} (a : ℕ) (v w : V) (xs ys : List (ℕ × V))
    → SameKeys xs ys
    → SameKeys ((a, v) ∷ xs) ((a, w) ∷ ys)
unfolding lookup
SameKeys-cons a v w xs ys s = record {
  absent = λ k h. ground (arith, s.absent k, h);
  numbers = λ ip j. omega (arith, s.numbers ip j);
  distinct = λ d. (s.absent a d.0, s.distinct d.1);
}

differ : {V : Type 0} {v : V} → Path (Option V) none (some v) → ⊥
differ e = cc

-- Keys that can be removed one after the other.
abbrev Removable : {V : Type 0} → List ℕ → List (ℕ × V) → Type 0
Removable {V} [] m = Unit
Removable {V} (k ∷ ks) m = ((v : V) × (lookup k m ≡ some v)) × Removable ks (remove k m)

Removable-cons :
    {V : Type 0} (ks : List ℕ) (a : ℕ) (w : V) (m : List (ℕ × V))
    → lookup a m ≡ none
    → Removable ks m
    → Removable ks ((a, w) ∷ m)
unfolding lookup remove
Removable-cons [] a w m missing h = tt
Removable-cons (k ∷ ks) a w m missing ((v, present), rest) = elim (Bool-cases (a == k)) [
  | inl same ↦
      let missing' = subst (λ i. lookup i m ≡ none) (==→eq a k same) missing in
      absurd (differ (sym missing' ∙ present))
  | inr other ↦
      let missing' : lookup a (remove k m) ≡ none =
        rw (lookup-remove k a m) (ground (arith, missing)) in
      rw other ((v, present), Removable-cons ks a w (remove k m) missing' rest)
]

Removable-head :
    {V : Type 0} (ks : List ℕ) (a : ℕ) (w : V) (m : List (ℕ × V))
    → lookup a m ≡ none
    → Removable ks m
    → Removable (a ∷ ks) ((a, w) ∷ m)
unfolding lookup remove
Removable-head ks a w m missing h =
    let here : (a == a) ≡ true = ground arith in
    rw (here, remove_missing a m missing) ((w, refl), h)

module _ {t : SessionTrait} where
  Same-trans : {m n o : SessionManager t} → Same m n → Same n o → Same m o
  Same-trans f g = record {
    sessions = g.sessions ∙ f.sessions;
    counts = g.counts ∙ f.counts;
    config = g.config ∙ f.config;
  }

  -- The sessions after the regular update stand at the same addresses.
  abbrev Updates :
      List (ℕ × t.Session)
      → SessionManager t
      → Option (List (ℕ × t.Session) × SessionManager t)
      → Type 0
  Updates xs m none = Unit
  Updates xs m (some (ys, n)) = SameKeys xs ys × Same m n

  updated_first-Updates :
      (a : ℕ) (v w : t.Session) (xs : List (ℕ × t.Session)) (m n : SessionManager t)
      (r : Option (List (ℕ × t.Session) × SessionManager t))
      → Same m n
      → Updates xs n r
      → Updates ((a, v) ∷ xs) m (updated_first a w r)
  updated_first-Updates a v w xs m n none same h = tt
  updated_first-Updates a v w xs m n (some (ys, o)) same (keys, rest) =
      (SameKeys-cons a v w xs ys keys, Same-trans same rest)

  update_each-Updates :
      (xs : List (ℕ × t.Session)) (m : SessionManager t) (time : ℕ) (random : ℕ → t.Random)
      → Updates xs m (update_each xs m time random)
  unfolding update_each
  update_each-Updates [] m time random = (
    record { absent = λ k h. h; numbers = λ ip j. refl; distinct = λ d. d },
    record { sessions = refl; counts = refl; config = refl },
  )
  update_each-Updates ((a, v) ∷ xs) m time random =
      elim (Option-cases (t.update v time (random a))) [
        | inl panics ↦ rw (update_each, panics) tt
        | inr ((actions, w), e) ↦
            rw (update_each, e)
              (updated_first-Updates a v w xs m (handle_actions m a actions) _
                (handle_actions-Same m a actions)
                (update_each-Updates xs (handle_actions m a actions) time random))
      ]

  collect_drops-Same :
      (xs : List (ℕ × t.Session)) (m : SessionManager t) (time : ℕ)
      → Same m (collect_drops xs m time).1
  unfolding collect_drops
  collect_drops-Same [] m time = record { sessions = refl; counts = refl; config = refl }
  collect_drops-Same ((a, v) ∷ xs) m time =
      let actions = (t.should_drop v time).1 in
      Same-trans (handle_actions-Same m a actions)
        (collect_drops-Same xs (handle_actions m a actions) time)

  collect_drops-Removable :
      (xs : List (ℕ × t.Session)) (m : SessionManager t) (time : ℕ)
      → Distinct xs
      → Removable (collect_drops xs m time).0 xs
  unfolding collect_drops
  collect_drops-Removable [] m time d = tt
  collect_drops-Removable ((a, v) ∷ xs) m time (missing, d) =
      let m' = handle_actions m a (t.should_drop v time).1 in
      dropped (t.should_drop v time).0 (collect_drops xs m' time).0 missing
        (collect_drops-Removable xs m' time d)
    where
      dropped :
          (drops : Bool) (ks : List ℕ)
          → lookup a xs ≡ none
          → Removable ks xs
          → Removable (if drops then a ∷ ks else ks) ((a, v) ∷ xs)
      dropped true ks missing h = Removable-head ks a v xs missing h
      dropped false ks missing h = Removable-cons ks a v xs missing h

module _ {t : SessionTrait} (ip : ℕ → ℕ) where
  abbrev Remains : Option (SessionManager t) → Type 0
  Remains none = Unit
  Remains (some m) = IsTallied ip m

  -- Dropping sessions that there are succeeds: no count underflows.
  drop_each-IsTallied :
      (ks : List ℕ) (m : SessionManager t)
      → Removable ks m.sessions
      → IsTallied ip m
      → (n : SessionManager t) × (drop_each ip ks m ≡ some n) × IsTallied ip n
  unfolding drop_each
  drop_each-IsTallied [] m r h = (m, refl, h)
  drop_each-IsTallied (k ∷ ks) m ((v, present), rest) h =
      let (n, e, sessions, h') = remove-IsTallied ip m k v present h in
      let (o, f, h'') = drop_each-IsTallied ks n (subst (Removable ks) (sym sessions) rest) h' in
      (o, rw (drop_each, e) f, h'')

  -- Dropping sessions ends with exact counts; no count underflows, whatever the sessions ask for.
  pub drop_sessions-IsTallied :
      (m : SessionManager t) (time : ℕ)
      → IsTallied ip m
      → (n : SessionManager t) × (drop_sessions ip m time ≡ some n) × IsTallied ip n
  unfolding drop_sessions
  drop_sessions-IsTallied m time h =
      let same = collect_drops-Same m.sessions m time in
      let removable = collect_drops-Removable m.sessions m time h.distinct in
      drop_each-IsTallied _ _ (subst (Removable _) (sym same.sessions) removable)
        (Same-IsTallied ip same h)

  update_sessions-IsTallied :
      (m : SessionManager t) (time : ℕ) (random : ℕ → t.Random)
      → IsTallied ip m
      → Remains (update_sessions m time random)
  unfolding update_sessions
  update_sessions-IsTallied m time random h =
      let updates = update_each-Updates m.sessions m time random in
      elim (Option-cases (update_each m.sessions m time random)) [
        | inl panics ↦ rw (update_sessions, panics) tt
        | inr ((ys, n), e) ↦
            let (keys, same) = subst (Updates m.sessions m) e updates in
            rw (update_sessions, e)
              (record {
                distinct = keys.distinct h.distinct;
                tally = λ j.
                    ap (λ c. or_zero (lookup j c)) same.counts
                    ∙ h.tally j
                    ∙ sym (keys.numbers ip j);
                limited = elim h.limited [
                  | inl unlimited ↦
                      inl (ap (λ (g : Config). g.max_duplicate_peers) same.config ∙ unlimited)
                  | inr most ↦ inr (λ j. rw (keys.numbers ip j, same.config) (most j))
                ];
              })
      ]

  poll-Remains :
      (m : SessionManager t) (received : List (ℕ × Option (List ℕ) × t.Random))
      (events : List (t.Event × t.Random)) (time : ℕ) (random : ℕ → t.Random)
      → IsTallied ip m
      → Remains (poll ip m received events time random)
  unfolding poll
  poll-Remains m received events time random h =
      let start = unestablished_session_count t m.sessions in
      let step = receive_all-IsTallied ip start m received time h in
      elim (Option-cases (receive_all ip (start, m) received time)) [
        | inl panics ↦ rw (poll, panics) tt
        | inr ((u, m'), e) ↦
            let step' = handle_events-IsTallied ip u m' events time (subst (Tallies ip) e step) in
            elim (Option-cases (handle_events ip (u, m') events time)) [
              | inl panics ↦ rw (poll, e, panics) tt
              | inr ((u', m''), f) ↦
                  let last =
                    update_sessions-IsTallied m'' time random (subst (Tallies ip) f step') in
                  elim (Option-cases (update_sessions m'' time random)) [
                    | inl panics ↦ rw (poll, e, f, panics) tt
                    | inr (o, g) ↦
                        let (n, dropped, h') =
                          drop_sessions-IsTallied o time (subst Remains g last) in
                        rw (poll, e, f, g, dropped) h'
                  ]
            ]
      ]

  -- A poll, whatever it receives and whatever the user asks for, keeps one session for each address,
  -- the count of each IP address equal to the number of its sessions, and that number within the
  -- limit of duplicate peers, if there is a limit.
  pub poll-IsTallied :
      (m n : SessionManager t) (received : List (ℕ × Option (List ℕ) × t.Random))
      (events : List (t.Event × t.Random)) (time : ℕ) (random : ℕ → t.Random)
      → IsTallied ip m
      → poll ip m received events time random ≡ some n
      → IsTallied ip n
  poll-IsTallied m n received events time random h e =
      subst Remains e (poll-Remains m received events time random h)
