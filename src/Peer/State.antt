-- ===== src/Peer/State.antt =====
-- crates/bitfold-peer/src/peer_state.rs: the states of a connection.
use bitfold.Prelude.{Bool, true, false}

pub data PeerState : Type 0 where
  idle connecting acknowledging_connect connection_succeeded connected disconnecting zombie :
      PeerState

unfoldable pub is_active : PeerState → Bool
is_active connected = true
is_active connection_succeeded = true
is_active acknowledging_connect = true
is_active connecting = true
is_active _ = false

unfoldable pub is_established : PeerState → Bool
is_established connected = true
is_established connection_succeeded = true
is_established _ = false

unfoldable pub is_disconnecting : PeerState → Bool
is_disconnecting disconnecting = true
is_disconnecting zombie = true
is_disconnecting _ = false

unfoldable pub is_connecting : PeerState → Bool
is_connecting connecting = true
is_connecting acknowledging_connect = true
is_connecting connection_succeeded = true
is_connecting _ = false

-- The derived `==` against `Idle`, `Connecting` and `Zombie`.
abbrev pub is_idle : PeerState → Bool
is_idle idle = true
is_idle _ = false

abbrev pub awaits_verify : PeerState → Bool
awaits_verify connecting = true
awaits_verify _ = false

abbrev pub is_zombie : PeerState → Bool
is_zombie zombie = true
is_zombie _ = false
