-- ===== src/SessionManager/Tally/Polled.antt =====
-- A poll keeps the counts of the sessions exact.
use bitfold.Prelude.{
  ℕ, ◌+◌, ◌≡◌, ap, ◌∙◌, inl, inr, List, [], ◌∷◌, Option, none, some, ltb, Bool-cases, Option-cases,
  subst,
}
use bitfold.Prelude.Map.{lookup, insert}
use bitfold.Session.{Action}
use bitfold.SessionManager.{
  SessionTrait, SessionManager, handle_actions, increment_duplicate_count, can_accept_duplicate,
  or_zero, handled, receive_known, receive_unknown, receive, receive_all, handle_event,
  handle_events,
}
use bitfold.SessionManager.Tally.{
  IsTallied, Same, handle_actions-Same, Same-IsTallied, replace-IsTallied, add-IsTallied,
}

-- Holds of the manager that is left, if nothing panics.
abbrev pub Tallies : {t : SessionTrait} → (ℕ → ℕ) → Option (ℕ × SessionManager t) → Type 0
Tallies ip none = Unit
Tallies ip (some (n, m)) = IsTallied ip m

module _ {t : SessionTrait} (ip : ℕ → ℕ) where
  handled-IsTallied :
      (m : SessionManager t) (a : ℕ) (v w : t.Session) (actions : List Action) (u : Option ℕ)
      → lookup a m.sessions ≡ some v
      → IsTallied ip m
      → Tallies ip (handled ip m a w actions u)
  handled-IsTallied m a v w actions none present h = tt
  handled-IsTallied m a v w actions (some u) present h =
      Same-IsTallied ip (handle_actions-Same _ a actions) (replace-IsTallied ip m a v w present h)

  receive_known-IsTallied :
      (u : ℕ) (m : SessionManager t) (a : ℕ) (v : t.Session) (payload : List ℕ) (time : ℕ)
      (random : t.Random)
      → lookup a m.sessions ≡ some v
      → IsTallied ip m
      → Tallies ip (receive_known ip (u, m) a v payload time random)
  unfolding receive_known
  receive_known-IsTallied u m a v payload time random present h =
      elim (Option-cases (t.process_packet v payload time random)) [
        | inl panics ↦ rw (receive_known, panics) tt
        | inr ((actions, w), e) ↦
            rw (receive_known, e) (handled-IsTallied m a v w actions _ present h)
      ]

  receive_unknown-IsTallied :
      (u : ℕ) (m : SessionManager t) (a : ℕ) (payload : List ℕ) (time : ℕ) (random : t.Random)
      → lookup a m.sessions ≡ none
      → IsTallied ip m
      → Tallies ip (receive_unknown ip (u, m) a payload time random)
  unfolding receive_unknown
  receive_unknown-IsTallied u m a payload time random missing h =
      let s = t.create_session m.config a time random in
      elim (Option-cases (t.process_packet s payload time random)) [
        | inl panics ↦ rw (receive_unknown, panics) tt
        | inr ((actions, w), e) ↦
            let m' = handle_actions m a actions in
            let same = handle_actions-Same m a actions in
            let h' = Same-IsTallied ip same h in
            let missing' : lookup a m'.sessions ≡ none = ap (lookup a) same.sessions ∙ missing in
            elim (Bool-cases (ltb u m.config.max_unestablished_connections)) [
              | inr full ↦ rw (receive_unknown, e, full) h'
              | inl room ↦ elim (Bool-cases (can_accept_duplicate ip m' a)) [
                | inr full ↦ rw (receive_unknown, e, room, full) h'
                | inl accepted ↦
                    rw (receive_unknown, e, room, accepted)
                      (add-IsTallied ip m' a w missing' accepted h')
              ]
            ]
      ]

  receive-IsTallied :
      (u : ℕ) (m : SessionManager t) (a : ℕ) (payload : List ℕ) (time : ℕ) (random : t.Random)
      → IsTallied ip m
      → Tallies ip (receive ip (u, m) a payload time random)
  unfolding receive
  receive-IsTallied u m a payload time random h = elim (Option-cases (lookup a m.sessions)) [
    | inl missing ↦
        rw (receive, missing) (receive_unknown-IsTallied u m a payload time random missing h)
    | inr (v, present) ↦
        rw (receive, present) (receive_known-IsTallied u m a v payload time random present h)
  ]

  pub receive_all-IsTallied :
      (u : ℕ) (m : SessionManager t) (received : List (ℕ × Option (List ℕ) × t.Random)) (time : ℕ)
      → IsTallied ip m
      → Tallies ip (receive_all ip (u, m) received time)
  unfolding receive_all
  receive_all-IsTallied u m [] time h = h
  receive_all-IsTallied u m ((a, none, random) ∷ rest) time h =
      receive_all-IsTallied u m rest time h
  receive_all-IsTallied u m ((a, some payload, random) ∷ rest) time h =
      let step = receive-IsTallied u m a payload time random h in
      elim (Option-cases (receive ip (u, m) a payload time random)) [
        | inl panics ↦ rw (receive_all, panics) tt
        | inr ((u', m'), e) ↦
            rw (receive_all, e) (receive_all-IsTallied u' m' rest time (subst (Tallies ip) e step))
      ]

  increment-Same :
      (m n : SessionManager t) (a : ℕ)
      → Same m n
      → Same (increment_duplicate_count ip m a) (increment_duplicate_count ip n a)
  unfolding increment_duplicate_count
  increment-Same m n a same = record {
    sessions = same.sessions;
    counts = ap (λ c. insert (ip a) (or_zero (lookup (ip a) c) + 1) c) same.counts;
    config = same.config;
  }

  handle_event-IsTallied :
      (u : ℕ) (m : SessionManager t) (event : t.Event) (time : ℕ) (random : t.Random)
      → IsTallied ip m
      → Tallies ip (handle_event ip (u, m) event time random)
  unfolding handle_event
  handle_event-IsTallied u m event time random h =
      let a = t.address event in
      elim (Option-cases (lookup a m.sessions)) [
        | inr (v, present) ↦ elim (Option-cases (t.process_event v event time random)) [
          | inl panics ↦ rw (handle_event, present, panics) tt
          | inr ((actions, w), e) ↦
              rw (handle_event, present, e) (handled-IsTallied m a v w actions _ present h)
        ]
        | inl missing ↦ elim (Bool-cases (can_accept_duplicate ip m a)) [
          | inr full ↦ rw (handle_event, missing, full) h
          | inl accepted ↦
              elim (Option-cases
                (t.process_event (t.create_session m.config a time random) event time random)) [
                  | inl panics ↦ rw (handle_event, missing, accepted, panics) tt
                  | inr ((actions, w), e) ↦
                      rw (handle_event, missing, accepted, e)
                        (Same-IsTallied ip (increment-Same _ _ a (handle_actions-Same _ a actions))
                          (add-IsTallied ip m a w missing accepted h))
                ]
        ]
      ]

  pub handle_events-IsTallied :
      (u : ℕ) (m : SessionManager t) (events : List (t.Event × t.Random)) (time : ℕ)
      → IsTallied ip m
      → Tallies ip (handle_events ip (u, m) events time)
  unfolding handle_events
  handle_events-IsTallied u m [] time h = h
  handle_events-IsTallied u m ((event, random) ∷ rest) time h =
      let step = handle_event-IsTallied u m event time random h in
      elim (Option-cases (handle_event ip (u, m) event time random)) [
        | inl panics ↦ rw (handle_events, panics) tt
        | inr ((u', m'), e) ↦
            rw (handle_events, e)
              (handle_events-IsTallied u' m' rest time (subst (Tallies ip) e step))
      ]
