-- ===== src/Session/Reach.antt =====
-- The runs of a session: any sequence of its operations, and what holds of every peer that they reach.
pub mod Operations
pub mod Reports
pub mod Runs
use bitfold.Prelude.{
  ℕ, ◌≤◌, ◌≡◌, refl, sym, ◌∙◌, subst, inl, arith, List, Option, some, Bool, true, false, ◌⊎◌, inr,
}
use bitfold.Core.Float.{Float}
use bitfold.Core.Config.{Config}
use bitfold.Codec.Bytes.{ByteOrder}
use bitfold.Codec.Compression.{Compressors}
use bitfold.Queue.{IsCounted, new_queue}
use bitfold.Acknowledgment.{with_congestion}
use bitfold.Packet.{Packet}
use bitfold.Peer.{Peer, new, new_handler, disconnect}
use bitfold.Peer.State.{
  PeerState, idle, connecting, acknowledging_connect, connection_succeeded, connected,
  disconnecting, zombie, is_established, is_disconnecting,
}
use bitfold.Peer.Kept.{Keeps, Keeps-trans, Stays, Unnumbered}
use bitfold.Peer.Handshake.{
  Moves, stays, calls, answers, is_answered, is_acknowledged, completes, skips_from_idle, skips,
  leaves, dies, Steps,
}
use bitfold.Session.{Action}
use bitfold.Session.Run.{process_packet, process_event, update}

-- Any number of moves.
pub data Trace (handshake : Bool) : PeerState → PeerState → Type 0 where
  ends : (s : PeerState) → Trace handshake s s
  moves : {s t u : PeerState} → Moves handshake s t → Trace handshake t u → Trace handshake s u

-- What an operation does: moves of the connection, and what every one of them keeps.
pub record Reaches {float : Float} (p q : Peer float) : Type 0 where
  pub trace : Trace p.config.use_connection_handshake p.state q.state
  pub keeps : Keeps p q

Trace-trans : {h : Bool} {s t u : PeerState} → Trace h s t → Trace h t u → Trace h s u
Trace-trans (ends s) k = k
Trace-trans (moves m t) k = moves m (Trace-trans t k)

module _ {float : Float} where
  pub Reaches-trans : {p q r : Peer float} → Reaches p q → Reaches q r → Reaches p r
  Reaches-trans {p} {q} {r} a b = record {
    trace = Trace-trans a.trace (subst (λ h. Trace h q.state r.state) a.keeps.handshake b.trace);
    keeps = Keeps-trans a.keeps b.keeps;
  }

  pub Steps-Reaches : {p q : Peer float} → Steps p q → Reaches p q
  Steps-Reaches {p} {q} s = record { trace = moves s.moves (ends q.state); keeps = s.keeps }

-- Where a state stands in the life of a connection.
abbrev pub stage : PeerState → ℕ
stage idle = 0
stage connecting = 1
stage acknowledging_connect = 1
stage connection_succeeded = 2
stage connected = 3
stage disconnecting = 4
stage zombie = 5

differ : true ≡ false → ⊥
differ e = cc

active_le : (s : PeerState) → is_disconnecting s ≡ false → stage s ≤ 4
unfolding is_disconnecting
active_le idle e = omega arith
active_le connecting e = omega arith
active_le acknowledging_connect e = omega arith
active_le connection_succeeded e = omega arith
active_le connected e = omega arith
active_le disconnecting e = omega arith
active_le zombie e = absurd (differ e)

stage_le : (s : PeerState) → stage s ≤ 5
stage_le idle = omega arith
stage_le connecting = omega arith
stage_le acknowledging_connect = omega arith
stage_le connection_succeeded = omega arith
stage_le connected = omega arith
stage_le disconnecting = omega arith
stage_le zombie = omega arith

stage-Moves : {h : Bool} {s t : PeerState} → Moves h s t → stage s ≤ stage t
stage-Moves (stays s) = omega arith
stage-Moves calls = omega arith
stage-Moves answers = omega arith
stage-Moves is_answered = omega arith
stage-Moves is_acknowledged = omega arith
stage-Moves completes = omega arith
stage-Moves (skips_from_idle e) = omega arith
stage-Moves (skips e) = omega arith
stage-Moves (leaves s e) = active_le s e
stage-Moves (dies s) = stage_le s

pub stage-Trace : {h : Bool} {s t : PeerState} → Trace h s t → stage s ≤ stage t
stage-Trace (ends s) = omega arith
stage-Trace (moves m t) = omega (arith, stage-Moves m, stage-Trace t)
