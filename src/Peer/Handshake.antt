-- ===== src/Peer/Handshake.antt =====
-- The state machine of a connection: the moves that commands and the peer's own operations make.
pub mod Local
pub mod Exchange
pub mod Answered
use bitfold.Prelude.{
  ℕ, ◌≤◌, ◌≡◌, refl, ◌⊎◌, inl, inr, List, [], ◌∷◌, Option, none, some, arith, Bool, true, false,
  not, sym, ap, ◌!=◌, if◌then◌else◌, Bool-cases, Option-cases, ◌∙◌, subst,
}
use bitfold.Core.Float.{Float}
use bitfold.Core.Config.{Config}
use bitfold.Command.{
  ProtocolCommand, send_reliable, send_unreliable, send_unreliable_sequenced, send_unsequenced,
  send_fragment, send_unreliable_fragment, acknowledge, ping, pong, connect, verify_connect,
  disconnect, bandwidth_limit, throttle_configure, pmtu_probe, pmtu_reply,
}
use bitfold.Queue.{command_data_size}
use bitfold.FlowControl.{set_window_size as set_window}
use bitfold.Peer.{
  Peer, push_command, initiate_connect, sent_state, record_send, received_state, record_recv,
  disconnect as disconnect_peer, enqueue_pong_command,
}
use bitfold.Pmtu.{create_reply}
use bitfold.Peer.Parts.{set_window_size}
use bitfold.Peer.State.{
  PeerState, idle, connecting, acknowledging_connect, connection_succeeded, connected,
  disconnecting, zombie, is_idle, awaits_verify, is_established, is_disconnecting,
}
use bitfold.Peer.Receive.{Processed}
use bitfold.Peer.Process.{
  process_connect, negotiate_window, process_verify_connect, process_bandwidth_limit,
  process_throttle_configure, process_arm, process_command,
}
use bitfold.Peer.Kept.{
  Keeps, Keeps-trans, Stays, Stays-refl, Stays-trans, same-Stays, Unnumbered,
  enqueue_command_peer-Stays, push_command-Keeps, Leaves,
}
use bitfold.Peer.Kept.Data.{
  process_acknowledge-Stays, process_send_reliable-Stays, process_send_unreliable_sequenced-Stays,
  process_send_unsequenced-Stays, process_send_fragment-Stays,
  process_send_unreliable_fragment-Stays,
}

-- The moves of a connection, by whether the handshake is in use.
pub data Moves (handshake : Bool) : PeerState → PeerState → Type 0 where
  stays : (s : PeerState) → Moves handshake s s
  calls : Moves handshake idle connecting
  answers : Moves handshake idle acknowledging_connect
  is_answered : Moves handshake connecting connection_succeeded
  is_acknowledged : Moves handshake acknowledging_connect connected
  completes : Moves handshake connection_succeeded connected
  skips_from_idle : handshake ≡ false → Moves handshake idle connected
  skips : handshake ≡ false → Moves handshake connecting connected
  leaves : (s : PeerState) → is_disconnecting s ≡ false → Moves handshake s disconnecting
  dies : (s : PeerState) → Moves handshake s zombie

-- One move, and what every operation keeps.
pub record Steps {float : Float} (p q : Peer float) : Type 0 where
  pub moves : Moves p.config.use_connection_handshake p.state q.state
  pub keeps : Keeps p q

pub is_idle-eq : (s : PeerState) → is_idle s ≡ true → s ≡ idle
is_idle-eq idle e = refl
is_idle-eq connecting e = cc
is_idle-eq acknowledging_connect e = cc
is_idle-eq connection_succeeded e = cc
is_idle-eq connected e = cc
is_idle-eq disconnecting e = cc
is_idle-eq zombie e = cc

awaits_verify-eq : (s : PeerState) → awaits_verify s ≡ true → s ≡ connecting
awaits_verify-eq idle e = cc
awaits_verify-eq connecting e = refl
awaits_verify-eq acknowledging_connect e = cc
awaits_verify-eq connection_succeeded e = cc
awaits_verify-eq connected e = cc
awaits_verify-eq disconnecting e = cc
awaits_verify-eq zombie e = cc

abbrev pub Every : {A : Type 0} → (A → Type 0) → Option A → Type 0
Every P none = Unit
Every P (some a) = P a

module _ {float : Float} where
  pub Stays-Steps : {p q : Peer float} → Stays p q → Steps p q
  Stays-Steps {p} s = record { moves = rw s.state (stays p.state); keeps = s.keeps }

  Leaves-Steps : (p : Peer float) (r : Processed float) → Leaves (Stays p) r → Leaves (Steps p) r
  Leaves-Steps p none h = tt
  Leaves-Steps p (some (o, q)) h = Stays-Steps h

  -- Another state, and nothing else.
  pub moved : (p : Peer float) (s : PeerState) → Keeps p (record p { state = s })
  moved p s = record {
    address = refl;
    handshake = refl;
    ranged = λ v. v;
    counted = λ v. v;
    unnumbered = λ v. v;
  }

  -- A move to the state of `q`, from which `r` does not depart.
  pub Moves-on :
      {p q r : Peer float} {s : PeerState}
      → p.state ≡ s
      → Moves p.config.use_connection_handshake s q.state
      → Keeps p q
      → Stays q r
      → Steps p r
  Moves-on {p} {q} {r} e m k stay = record {
    moves =
        subst (λ t. Moves p.config.use_connection_handshake p.state t) (sym stay.state)
          (subst (λ t. Moves p.config.use_connection_handshake t q.state) (sym e) m);
    keeps = Keeps-trans k stay.keeps;
  }

  process_connect-Steps :
      (p : Peer float) (channels session_id connect_id random : ℕ)
      → Leaves (Steps p) (process_connect p channels session_id connect_id random)
  unfolding process_connect command_data_size
  process_connect-Steps p channels session_id connect_id random =
      elim (Bool-cases (is_idle p.state)) [
        | inr other ↦ rw (process_connect, other) (Stays-Steps (Stays-refl p))
        | inl e ↦
            rw (process_connect, e)
              (Moves-on (is_idle-eq p.state e) answers
                (record {
                  address = refl;
                  handshake = refl;
                  ranged = λ v. v;
                  counted = λ v. v;
                  unnumbered = λ v. v;
                })
                (push_command-Keeps _ _ refl))
      ]

  set_window_size-Stays : (q : Peer float) (w : ℕ) → Every (Stays q) (set_window_size q w)
  unfolding set_window_size
  set_window_size-Stays q w = elim (Option-cases (set_window q.config q.flow_control w)) [
    | inl panics ↦ rw (set_window_size, panics) tt
    | inr (f, e) ↦ rw (set_window_size, e) (same-Stays refl refl refl refl refl)
  ]

  window_if :
      (use_window : Bool) (q : Peer float) (w : ℕ)
      → Every (Stays q) (if use_window then set_window_size q w else some q)
  window_if true q w = set_window_size-Stays q w
  window_if false q w = Stays-refl q

  negotiate_window-Stays : (q r : Peer float) (w : ℕ) → negotiate_window q w ≡ some r → Stays q r
  unfolding negotiate_window
  negotiate_window-Stays q r w e =
      subst (Every (Stays q)) e (window_if q.config.use_window_flow_control q _)

  process_verify_connect-Steps :
      (p : Peer float) (peer_id incoming_session_id outgoing_session_id window_size : ℕ)
      → Leaves
          (Steps p)
          (process_verify_connect p peer_id incoming_session_id outgoing_session_id window_size)
  unfolding process_verify_connect
  process_verify_connect-Steps p peer_id incoming_session_id outgoing_session_id window_size =
      let q : Peer float = record p {
        peer_id = peer_id;
        incoming_session_id = incoming_session_id;
      } in
      elim (Bool-cases (awaits_verify p.state)) [
        | inr other ↦ rw (process_verify_connect, other) (Stays-Steps (Stays-refl p))
        | inl e ↦ elim (Option-cases (negotiate_window q window_size)) [
          | inl panics ↦ rw (process_verify_connect, panics, e) tt
          | inr (r, ok_window) ↦
              let stay =
                Stays-trans (same-Stays {p = p} {q = q} refl refl refl refl refl)
                  (negotiate_window-Stays q r window_size ok_window) in
              elim (Bool-cases (outgoing_session_id != r.outgoing_session_id)) [
                | inl mismatch ↦
                    rw (process_verify_connect, ok_window, mismatch, e) (Stays-Steps stay)
                | inr match ↦
                    rw (process_verify_connect, ok_window, match, e)
                      (Moves-on (awaits_verify-eq p.state e) is_answered
                        (Keeps-trans stay.keeps (moved r connection_succeeded)) (Stays-refl _))
              ]
        ]
      ]

  arm-Steps :
      (p : Peer float) (c : ProtocolCommand) (time random : ℕ)
      → Leaves (Steps p) (process_arm p c time random)
  unfolding process_arm process_bandwidth_limit process_throttle_configure enqueue_pong_command
  arm-Steps p (acknowledge s m t) time random =
      Leaves-Steps p _ (process_acknowledge-Stays p s m time)
  arm-Steps p (ping t) time random = Stays-Steps (enqueue_command_peer-Stays p (pong t))
  arm-Steps p (pong t) time random = Stays-Steps (Stays-refl p)
  arm-Steps p (send_reliable c s o d) time random =
      Leaves-Steps p _ (process_send_reliable-Stays p c s o d time)
  arm-Steps p (send_unreliable c d) time random = Stays-Steps (Stays-refl p)
  arm-Steps p (send_unreliable_sequenced c s d) time random =
      Leaves-Steps p _ (process_send_unreliable_sequenced-Stays p c s d)
  arm-Steps p (send_unsequenced c g d) time random =
      Leaves-Steps p _ (process_send_unsequenced-Stays p c g d)
  arm-Steps p (send_fragment c s o i n d) time random =
      Leaves-Steps p _ (process_send_fragment-Stays p c s o i n d time)
  arm-Steps p (send_unreliable_fragment c s i n d) time random =
      Leaves-Steps p _ (process_send_unreliable_fragment-Stays p c s i n d time)
  arm-Steps p (disconnect r) time random = record { moves = dies p.state; keeps = moved p zombie }
  arm-Steps p (connect c m v o i) time random = process_connect-Steps p c o i random
  arm-Steps p (verify_connect i c m incoming outgoing w) time random =
      process_verify_connect-Steps p i incoming outgoing w
  arm-Steps p (bandwidth_limit i o) time random = Stays-Steps (record {
    state = refl;
    keeps = record {
      address = refl;
      handshake = refl;
      ranged = λ v. v;
      counted = λ v. record { counter = v.counter; bounded = v.bounded };
      unnumbered = λ v. v;
    };
  })
  arm-Steps p (throttle_configure i a d) time random = Stays-Steps (record {
    state = refl;
    keeps = record {
      address = refl;
      handshake = refl;
      ranged = λ v. v;
      counted = λ v. v;
      unnumbered = λ v. record { counter = v.counter; none_sent = v.none_sent };
    };
  })
  arm-Steps p (pmtu_probe s t d) time random =
      Stays-Steps (enqueue_command_peer-Stays p (create_reply s t))
  arm-Steps p (pmtu_reply s t) time random = Stays-Steps (same-Stays refl refl refl refl refl)

  -- A command leaves the state of the connection as it is, or makes one of these moves: `Idle` to
  -- `Connecting` or `AcknowledgingConnect`, `Connecting` to `ConnectionSucceeded`,
  -- `AcknowledgingConnect` or `ConnectionSucceeded` to `Connected`, without the handshake also `Idle`
  -- or `Connecting` to `Connected`, any but `Disconnecting` and `Zombie` to `Disconnecting`, any to
  -- `Zombie`. It keeps the address, the use of the handshake and a window range that is not empty; it
  -- keeps the waiting-data counter exact and within its limit, and numbers no packet.
  pub process_command-Steps :
      (p : Peer float) (c : ProtocolCommand) (time random : ℕ)
      → Leaves (Steps p) (process_command p c time random)
  unfolding process_command
  process_command-Steps p c time random =
      heard (process_command p c time random)
        (arm-Steps (record p { last_heard = time }) c time random)
    where
      heard :
          (r : Processed float)
          → Leaves (Steps (record p { last_heard = time })) r
          → Leaves (Steps p) r
      heard none h = tt
      heard (some (o, q)) h = record {
        moves = h.moves;
        keeps = record {
          address = h.keeps.address;
          handshake = h.keeps.handshake;
          ranged = h.keeps.ranged;
          counted = h.keeps.counted;
          unnumbered = h.keeps.unnumbered;
        };
      }
