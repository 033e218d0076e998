-- ===== src/Peer/Handshake/Local.antt =====
-- The moves that a peer makes when it sends, when it receives and when it disconnects.
use bitfold.Prelude.{◌≡◌, refl, Bool, true, false, not, if◌then◌else◌, Bool-cases, inl, inr}
use bitfold.Core.Float.{Float}
use bitfold.Queue.{command_data_size}
use bitfold.Peer.{
  Peer, initiate_connect, sent_state, record_send, received_state, record_recv, disconnect,
}
use bitfold.Peer.State.{
  PeerState, idle, connecting, acknowledging_connect, connection_succeeded, connected,
  disconnecting, zombie, is_idle, is_disconnecting,
}
use bitfold.Peer.Kept.{Stays-refl, push_command-Keeps}
use bitfold.Peer.Handshake.{
  Moves, calls, is_acknowledged, completes, skips_from_idle, skips, leaves, Steps, Stays-Steps,
  Moves-on, moved, is_idle-eq,
}

module _ {float : Float} where
  initiate_connect-Steps : (p : Peer float) → Steps p (initiate_connect p)
  unfolding initiate_connect command_data_size
  initiate_connect-Steps p = elim (Bool-cases (is_idle p.state)) [
    | inr other ↦ rw (initiate_connect, other) (Stays-Steps (Stays-refl p))
    | inl e ↦
        rw (initiate_connect, e)
          (Moves-on (is_idle-eq p.state e) calls (moved p connecting) (push_command-Keeps _ _ refl))
  ]

  call-Steps :
      (handshake : Bool) (p : Peer float)
      → p.state ≡ idle
      → Steps p (if handshake then initiate_connect p else record p { state = connecting })
  call-Steps true p e = initiate_connect-Steps p
  call-Steps false p e = Moves-on e calls (moved p connecting) (Stays-refl _)

  sent_state-Steps : (s : PeerState) (p : Peer float) → p.state ≡ s → Steps p (sent_state s p)
  unfolding sent_state
  sent_state-Steps idle p e = call-Steps p.config.use_connection_handshake p e
  sent_state-Steps connection_succeeded p e =
      Moves-on e completes (moved p connected) (Stays-refl _)
  sent_state-Steps connecting p e = Stays-Steps (Stays-refl p)
  sent_state-Steps acknowledging_connect p e = Stays-Steps (Stays-refl p)
  sent_state-Steps connected p e = Stays-Steps (Stays-refl p)
  sent_state-Steps disconnecting p e = Stays-Steps (Stays-refl p)
  sent_state-Steps zombie p e = Stays-Steps (Stays-refl p)

  pub record_send-Steps : (p : Peer float) → Steps p (record_send p).1
  unfolding record_send
  record_send-Steps p = sent_state-Steps p.state p refl

  implicit-Steps :
      (handshake : Bool) (p : Peer float)
      → (handshake ≡ false → Moves p.config.use_connection_handshake p.state connected)
      → Steps p (if not handshake then record p { state = connected } else p)
  implicit-Steps true p m = Stays-Steps (Stays-refl p)
  implicit-Steps false p m = Moves-on refl (m refl) (moved p connected) (Stays-refl _)

  received_state-Steps :
      (s : PeerState) (p : Peer float) → p.state ≡ s → Steps p (received_state s p)
  unfolding received_state
  received_state-Steps idle p e =
      implicit-Steps p.config.use_connection_handshake p (λ h. rw e (skips_from_idle h))
  received_state-Steps connecting p e =
      implicit-Steps p.config.use_connection_handshake p (λ h. rw e (skips h))
  received_state-Steps acknowledging_connect p e =
      Moves-on e is_acknowledged (moved p connected) (Stays-refl _)
  received_state-Steps connection_succeeded p e = Stays-Steps (Stays-refl p)
  received_state-Steps connected p e = Stays-Steps (Stays-refl p)
  received_state-Steps disconnecting p e = Stays-Steps (Stays-refl p)
  received_state-Steps zombie p e = Stays-Steps (Stays-refl p)

  pub record_recv-Steps : (p : Peer float) → Steps p (record_recv p).1
  unfolding record_recv
  record_recv-Steps p = received_state-Steps p.state p refl

  pub disconnect-Steps : (p : Peer float) → Steps p (disconnect p)
  unfolding disconnect command_data_size
  disconnect-Steps p = elim (Bool-cases (is_disconnecting p.state)) [
    | inl already ↦ rw (disconnect, already) (Stays-Steps (Stays-refl p))
    | inr active ↦
        rw (disconnect, active)
          (Moves-on refl (leaves p.state active) (moved p disconnecting)
            (push_command-Keeps _ _ refl))
  ]
