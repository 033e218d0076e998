-- ===== src/SessionManager.antt =====
-- crates/bitfold-host/src/session_manager.rs: the sessions of a socket, and the trait of
-- crates/bitfold-host/src/session.rs that they implement. The socket, the channels of the user and
-- the interceptor are arguments. A socket address is a number, and its IP address a function of it.
pub mod Poll
pub mod Tally
pub mod Peers
use bitfold.Prelude.{
  ℕ, zero, suc, ◌+◌, ◌-◌, Bool, true, false, not, ◌&&◌, List, [], ◌∷◌, ◌++◌, Option, none, some,
  length, ltb, ◌==◌, if◌then◌else◌,
}
use bitfold.Prelude.Map.{lookup, insert, remove}
use bitfold.Core.Config.{Config}
use bitfold.Core.Word.{checked_sub}
use bitfold.Session.{SocketEvent, Action, send_action, emit_action}

-- The trait, at the events of a peer. What an operation draws at random is an argument, and `none` is
-- a panic.
pub record SessionTrait : Type 1 where
  pub Session : Type 0
  pub Event : Type 0
  pub Random : Type 0
  pub address : Event → ℕ
  pub create_session : Config → ℕ → ℕ → Random → Session
  pub is_established : Session → Bool
  pub should_drop : Session → ℕ → Bool × List Action
  pub process_packet : Session → List ℕ → ℕ → Random → Option (List Action × Session)
  pub process_event : Session → Event → ℕ → Random → Option (List Action × Session)
  pub update : Session → ℕ → Random → Option (List Action × Session)

-- `pending_sends`, `pending_events` and `config` are fields of its `messenger`.
pub record SessionManager (t : SessionTrait) : Type 0 where
  pub sessions : List (ℕ × t.Session)
  pub pending_sends : List (ℕ × List ℕ)
  pub pending_events : List SocketEvent
  pub config : Config
  pub duplicate_peer_count : List (ℕ × ℕ)

abbrev pub or_zero : Option ℕ → ℕ
or_zero none = 0
or_zero (some n) = n

module _ {t : SessionTrait} where
  unfoldable pub new : Config → SessionManager t
  new config = record {
    sessions = [];
    pending_sends = [];
    pending_events = [];
    config = config;
    duplicate_peer_count = [];
  }

  unfoldable pub handle_actions : SessionManager t → ℕ → List Action → SessionManager t
  handle_actions m address [] = m
  handle_actions m address (send_action bytes_out ∷ actions) =
      handle_actions (record m { pending_sends = m.pending_sends ++ (address, bytes_out) ∷ [] })
        address actions
  handle_actions m address (emit_action event ∷ actions) =
      handle_actions (record m { pending_events = m.pending_events ++ event ∷ [] }) address actions

unfoldable pub unestablished_session_count : (t : SessionTrait) → List (ℕ × t.Session) → ℕ
unestablished_session_count t [] = 0
unestablished_session_count t ((a, s) ∷ m) =
    let rest = unestablished_session_count t m in if t.is_established s then rest else suc rest

-- The counter of the unestablished sessions when a session was handled; `none` is its underflow.
unfoldable pub settle : Bool → Bool → ℕ → Option ℕ
settle was_est is_est unestablished =
    if not was_est && is_est then checked_sub unestablished 1 else some unestablished

module _ {t : SessionTrait} (ip : ℕ → ℕ) where
  unfoldable pub increment_duplicate_count : SessionManager t → ℕ → SessionManager t
  increment_duplicate_count m addr = record m {
    duplicate_peer_count =
        insert (ip addr) (or_zero (lookup (ip addr) m.duplicate_peer_count) + 1)
          m.duplicate_peer_count;
  }

  -- `None` is the underflow of the count.
  unfoldable pub decrement_duplicate_count : SessionManager t → ℕ → Option (SessionManager t)
  decrement_duplicate_count m addr = elim (lookup (ip addr) m.duplicate_peer_count) [
    | none ↦ some m
    | some count ↦ elim (checked_sub count 1) [
      | none ↦ none
      | some n ↦ some (record m {
        duplicate_peer_count =
            (if n == 0
              then remove (ip addr) (insert (ip addr) n m.duplicate_peer_count)
              else insert (ip addr) n m.duplicate_peer_count);
      })
    ]
  ]

  unfoldable pub can_accept_duplicate : SessionManager t → ℕ → Bool
  can_accept_duplicate m addr =
      if m.config.max_duplicate_peers == 0
      then true
      else ltb (or_zero (lookup (ip addr) m.duplicate_peer_count)) m.config.max_duplicate_peers

  abbrev pub handled :
      SessionManager t → ℕ → t.Session → List Action → Option ℕ → Option (ℕ × SessionManager t)
  handled m address session actions none = none
  handled m address session actions (some unestablished) = some (
    unestablished,
    handle_actions (record m { sessions = insert address session m.sessions }) address actions,
  )

  -- A packet of a known address.
  unfoldable pub receive_known :
      (ℕ × SessionManager t) → ℕ → t.Session → List ℕ → ℕ → t.Random → Option (ℕ × SessionManager t)
  receive_known (unestablished, m) address session payload time random =
      elim (t.process_packet session payload time random) [
        | none ↦ none
        | some (actions, s) ↦
            handled m address s actions
              (settle (t.is_established session) (t.is_established s) unestablished)
      ]

  -- The session of an unknown address: its actions are carried out whether it is accepted or not.
  unfoldable pub receive_unknown :
      (ℕ × SessionManager t) → ℕ → List ℕ → ℕ → t.Random → Option (ℕ × SessionManager t)
  receive_unknown (unestablished, m) address payload time random =
      elim (t.process_packet (t.create_session m.config address time random) payload time random) [
        | none ↦ none
        | some (actions, s) ↦
            let m' : SessionManager t = handle_actions m address actions in
            let accepted = record m' { sessions = insert address s m'.sessions } in
            if ltb unestablished m.config.max_unestablished_connections
              && can_accept_duplicate m' address
            then some (unestablished + 1, increment_duplicate_count accepted address)
            else some (unestablished, m')
      ]

  unfoldable pub receive :
      (ℕ × SessionManager t) → ℕ → List ℕ → ℕ → t.Random → Option (ℕ × SessionManager t)
  receive (unestablished, m) address payload time random = elim (lookup address m.sessions) [
    | some session ↦ receive_known (unestablished, m) address session payload time random
    | none ↦ receive_unknown (unestablished, m) address payload time random
  ]

  -- The loop over what the socket gives, each with the interceptor's verdict: `none` is a packet
  -- that it drops.
  unfoldable pub receive_all :
      (ℕ × SessionManager t)
      → List (ℕ × Option (List ℕ) × t.Random)
      → ℕ
      → Option (ℕ × SessionManager t)
  receive_all um [] time = some um
  receive_all um ((address, none, random) ∷ rest) time = receive_all um rest time
  receive_all um ((address, some payload, random) ∷ rest) time =
      elim (receive um address payload time random) [
        | none ↦ none
        | some um' ↦ receive_all um' rest time
      ]

  -- An event of the user.
  unfoldable pub handle_event :
      (ℕ × SessionManager t) → t.Event → ℕ → t.Random → Option (ℕ × SessionManager t)
  handle_event (unestablished, m) event time random =
      let addr = t.address event in
      elim (lookup addr m.sessions) [
        | some session ↦ elim (t.process_event session event time random) [
          | none ↦ none
          | some (actions, s) ↦
              handled m addr s actions
                (settle (t.is_established session) (t.is_established s) unestablished)
        ]
        | none ↦
            if can_accept_duplicate m addr
            then elim (t.process_event (t.create_session m.config addr time random) event time
                random) [
                  | none ↦ none
                  | some (actions, s) ↦ some (
                    unestablished,
                    increment_duplicate_count
                        (handle_actions (record m { sessions = insert addr s m.sessions }) addr
                          actions)
                        addr,
                  )
                ]
            else some (unestablished, m)
      ]

  unfoldable pub handle_events :
      (ℕ × SessionManager t) → List (t.Event × t.Random) → ℕ → Option (ℕ × SessionManager t)
  handle_events um [] time = some um
  handle_events um ((event, random) ∷ rest) time = elim (handle_event um event time random) [
    | none ↦ none
    | some um' ↦ handle_events um' rest time
  ]
