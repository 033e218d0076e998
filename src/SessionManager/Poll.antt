-- ===== src/SessionManager/Poll.antt =====
-- crates/bitfold-host/src/session_manager.rs: one poll: what is received, the events of the user, the
-- update of every session, and the sessions that are dropped.
use bitfold.Prelude.{ℕ, List, [], ◌∷◌, Option, none, some, if◌then◌else◌}
use bitfold.Prelude.Map.{remove}
use bitfold.Session.{SocketEvent}
use bitfold.SessionManager.{
  SessionTrait, SessionManager, handle_actions, unestablished_session_count,
  decrement_duplicate_count, receive_all, handle_events,
}

module _ {t : SessionTrait} where
  abbrev pub updated_first :
      ℕ
      → t.Session
      → Option (List (ℕ × t.Session) × SessionManager t)
      → Option (List (ℕ × t.Session) × SessionManager t)
  updated_first address s none = none
  updated_first address s (some (rest, m)) = some ((address, s) ∷ rest, m)

  -- `for (addr, session) in self.sessions.iter_mut()`: the sessions, and the manager with their
  -- actions.
  unfoldable pub update_each :
      List (ℕ × t.Session)
      → SessionManager t
      → ℕ
      → (ℕ → t.Random)
      → Option (List (ℕ × t.Session) × SessionManager t)
  update_each [] m time random = some ([], m)
  update_each ((address, session) ∷ rest) m time random =
      elim (t.update session time (random address)) [
        | none ↦ none
        | some (actions, s) ↦
            updated_first address s
              (update_each rest (handle_actions m address actions) time random)
      ]

  unfoldable pub update_sessions : SessionManager t → ℕ → (ℕ → t.Random) → Option (SessionManager t)
  update_sessions m time random = elim (update_each m.sessions m time random) [
    | none ↦ none
    | some (sessions, m') ↦ some (record m' { sessions = sessions })
  ]

  -- The addresses to drop, and the manager with the actions of all sessions.
  unfoldable pub collect_drops :
      List (ℕ × t.Session) → SessionManager t → ℕ → List ℕ × SessionManager t
  collect_drops [] m time = ([], m)
  collect_drops ((address, session) ∷ rest) m time =
      let (drops, actions) = t.should_drop session time in
      let (to_drop, m') = collect_drops rest (handle_actions m address actions) time in
      (if drops then address ∷ to_drop else to_drop, m')

module _ {t : SessionTrait} (ip : ℕ → ℕ) where
  unfoldable pub drop_each : List ℕ → SessionManager t → Option (SessionManager t)
  drop_each [] m = some m
  drop_each (address ∷ to_drop) m =
      elim (decrement_duplicate_count ip (record m { sessions = remove address m.sessions })
        address) [ none ↦ none | some m' ↦ drop_each to_drop m' ]

  unfoldable pub drop_sessions : SessionManager t → ℕ → Option (SessionManager t)
  drop_sessions m time = let (to_drop, m') = collect_drops m.sessions m time in drop_each to_drop m'

-- The datagrams that the interceptor lets pass, as it leaves them.
unfoldable pub intercepted : (ℕ → List ℕ → Option (List ℕ)) → List (ℕ × List ℕ) → List (ℕ × List ℕ)
intercepted on_send [] = []
intercepted on_send ((address, payload) ∷ rest) = elim (on_send address payload) [
  | none ↦ intercepted on_send rest
  | some payload' ↦ (address, payload') ∷ intercepted on_send rest
]

module _ {t : SessionTrait} where
  -- What is handed to the socket and to the user, and the manager.
  unfoldable pub flush :
      (ℕ → List ℕ → Option (List ℕ))
      → SessionManager t
      → List (ℕ × List ℕ) × List SocketEvent × SessionManager t
  flush on_send m = (
    intercepted on_send m.pending_sends,
    m.pending_events,
    record m { pending_sends = []; pending_events = [] },
  )

  -- Everything before the flush.
  unfoldable pub poll :
      (ℕ → ℕ)
      → SessionManager t
      → List (ℕ × Option (List ℕ) × t.Random)
      → List (t.Event × t.Random)
      → ℕ
      → (ℕ → t.Random)
      → Option (SessionManager t)
  poll ip m received events time random =
      elim (receive_all ip (unestablished_session_count t m.sessions, m) received time) [
        | none ↦ none
        | some um ↦ elim (handle_events ip um events time) [
          | none ↦ none
          | some (unestablished, m') ↦ elim (update_sessions m' time random) [
            | none ↦ none
            | some m'' ↦ drop_sessions ip m'' time
          ]
        ]
      ]

  abbrev flushed :
      (ℕ → List ℕ → Option (List ℕ))
      → Option (SessionManager t)
      → Option (List (ℕ × List ℕ) × List SocketEvent × SessionManager t)
  flushed on_send none = none
  flushed on_send (some m) = some (flush on_send m)

  unfoldable pub manual_poll :
      (ℕ → ℕ)
      → (ℕ → List ℕ → Option (List ℕ))
      → SessionManager t
      → List (ℕ × Option (List ℕ) × t.Random)
      → List (t.Event × t.Random)
      → ℕ
      → (ℕ → t.Random)
      → Option (List (ℕ × List ℕ) × List SocketEvent × SessionManager t)
  manual_poll ip on_send m received events time random =
      flushed on_send (poll ip m received events time random)
