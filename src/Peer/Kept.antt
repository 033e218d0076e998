-- ===== src/Peer/Kept.antt =====
-- What every command that a peer receives keeps, and how it moves the state of the connection.
pub mod Data
use bitfold.Prelude.{
  ℕ, zero, suc, ◌+◌, ◌-◌, ◌*◌, ◌/◌, ◌%◌, ◌^◌, ◌≤◌, ◌≡◌, refl, ◌⊎◌, inl, inr, List, [], ◌∷◌, ◌++◌,
  map, Option, none, some, arith, length, ap, sym, subst, ◌∙◌, Bool, true, false, not, ◌&&◌, ◌==◌,
  ◌!=◌, if◌then◌else◌, Bool-cases, Option-cases, ltb,
}
use bitfold.Prelude.Map.{lookup, insert, remove}
use bitfold.Core.Float.{Float}
use bitfold.Core.Config.{Config}
use bitfold.Core.Error.{Outcome, done, failed}
use bitfold.Command.{ProtocolCommand}
use bitfold.Queue.{
  Waiting, CommandQueue, enqueue, enqueue_command, command_data_size, data_size, data_size-append,
  IsCounted, enqueue_command-IsCounted,
}
use bitfold.Acknowledgment.{
  AcknowledgmentHandler, acknowledged, acknowledged_bits, arrived, process_incoming,
  redundant_packet_acks_size,
}
use bitfold.Sequence.Order.{wrapping_sub}
use bitfold.Packet.{IncomingPackets}
use bitfold.Peer.{Peer, push_command, enqueue_command_peer, enqueue_ack_command}
use bitfold.Peer.Receive.{Processed}

-- No packet has been numbered: the counter stands at 0 and nothing waits for an acknowledgment.
pub record Unnumbered {float : Float} (h : AcknowledgmentHandler float) : Type 0 where
  pub counter : h.sequence_number ≡ 0
  pub none_sent : h.sent_packets ≡ []

module _ {float : Float} where
  acknowledged-Unnumbered :
      (s now : ℕ) (h : AcknowledgmentHandler float) → Unnumbered h → acknowledged s now h ≡ h
  unfolding acknowledged lookup
  acknowledged-Unnumbered s now h u =
      let missing : lookup s h.sent_packets ≡ none = ap (lookup s) u.none_sent in
      rw (acknowledged, missing) refl

  bits-Unnumbered :
      (turns i seq field now : ℕ) (h : AcknowledgmentHandler float)
      → Unnumbered h
      → Unnumbered (acknowledged_bits turns i seq field now h)
  unfolding acknowledged_bits
  bits-Unnumbered zero i seq field now h u = u
  bits-Unnumbered (suc turns) i seq field now h u = elim (Bool-cases (field % 2 == 1)) [
    | inl acked ↦
        rw (acked, acknowledged-Unnumbered (wrapping_sub seq i) now h u)
          (bits-Unnumbered turns (suc i) seq (field / 2) now h u)
    | inr skipped ↦ rw skipped (bits-Unnumbered turns (suc i) seq (field / 2) now h u)
  ]

  process_incoming-Unnumbered :
      (h : AcknowledgmentHandler float) (remote_seq ack_seq field now : ℕ)
      → Unnumbered h
      → Unnumbered (process_incoming h remote_seq ack_seq field now)
  unfolding process_incoming arrived
  process_incoming-Unnumbered h remote_seq ack_seq field now u =
      let h' = arrived h remote_seq ack_seq in
      let u' : Unnumbered h' = record { counter = u.counter; none_sent = u.none_sent } in
      rw (acknowledged-Unnumbered ack_seq now h' u')
        (bits-Unnumbered redundant_packet_acks_size 1 ack_seq field now h' u')

-- The window range is not empty: `clamp` panics otherwise.
abbrev pub Ranged : {float : Float} → Peer float → Type 0
Ranged p = p.config.min_window_size ≤ p.config.max_window_size

-- What an operation keeps.
pub record Keeps {float : Float} (p q : Peer float) : Type 0 where
  pub address : q.remote_address ≡ p.remote_address
  pub handshake : q.config.use_connection_handshake ≡ p.config.use_connection_handshake
  pub ranged : Ranged p → Ranged q
  pub counted : IsCounted p.config p.waiting → IsCounted q.config q.waiting
  pub unnumbered : Unnumbered p.acknowledge_handler → Unnumbered q.acknowledge_handler

-- And the state of the connection as well.
pub record Stays {float : Float} (p q : Peer float) : Type 0 where
  pub state : q.state ≡ p.state
  pub keeps : Keeps p q

module _ {float : Float} where
  pub Keeps-trans : {p q r : Peer float} → Keeps p q → Keeps q r → Keeps p r
  Keeps-trans f g = record {
    address = g.address ∙ f.address;
    handshake = g.handshake ∙ f.handshake;
    ranged = λ v. g.ranged (f.ranged v);
    counted = λ v. g.counted (f.counted v);
    unnumbered = λ v. g.unnumbered (f.unnumbered v);
  }

  pub Stays-trans : {p q r : Peer float} → Stays p q → Stays q r → Stays p r
  Stays-trans f g = record { state = g.state ∙ f.state; keeps = Keeps-trans f.keeps g.keeps }

  pub Stays-refl : (p : Peer float) → Stays p p
  Stays-refl p = record {
    state = refl;
    keeps = record {
      address = refl;
      handshake = refl;
      ranged = λ v. v;
      counted = λ v. v;
      unnumbered = λ v. v;
    };
  }

  -- What the other parts do is not looked at.
  pub same-Stays :
      {p q : Peer float}
      → q.state ≡ p.state
      → q.remote_address ≡ p.remote_address
      → q.config ≡ p.config
      → q.waiting ≡ p.waiting
      → q.acknowledge_handler ≡ p.acknowledge_handler
      → Stays p q
  same-Stays {p} {q} state address config waiting handler = record {
    state = state;
    keeps = record {
      address = address;
      handshake = ap (λ (g : Config). g.use_connection_handshake) config;
      ranged = λ v. subst (λ (g : Config). g.min_window_size ≤ g.max_window_size) (sym config) v;
      counted = λ v. rw (config, waiting) v;
      unnumbered = λ v. rw handler v;
    };
  }

  pub enqueue_command_peer-Stays :
      (p : Peer float) (c : ProtocolCommand) → Stays p (enqueue_command_peer p c).1
  unfolding enqueue_command_peer
  enqueue_command_peer-Stays p c = record {
    state = refl;
    keeps = record {
      address = refl;
      handshake = refl;
      ranged = λ v. v;
      counted = λ v. (enqueue_command-IsCounted p.config p.waiting c v).0;
      unnumbered = λ v. v;
    };
  }

  -- A command without a payload may bypass the limit.
  pub push_command-Keeps :
      (p : Peer float) (c : ProtocolCommand) → command_data_size c ≡ 0 → Stays p (push_command p c)
  unfolding push_command enqueue
  push_command-Keeps p c empty = record {
    state = refl;
    keeps = record {
      address = refl;
      handshake = refl;
      ranged = λ v. v;
      counted = λ v. record {
        counter =
            omega (arith, v.counter, data_size-append p.waiting.command_queue.commands c, empty);
        bounded = v.bounded;
      };
      unnumbered = λ v. v;
    };
  }

  pub enqueue_ack_command-Stays :
      (p : Peer float) (t : Option ℕ) → Stays p (enqueue_ack_command p t)
  unfolding enqueue_ack_command
  enqueue_ack_command-Stays p t = enqueue_command_peer-Stays p _

  -- New acknowledgments.
  pub incoming-Stays :
      (p : Peer float) (remote_seq ack_seq field now : ℕ)
      → Stays p (record p {
        acknowledge_handler = process_incoming p.acknowledge_handler remote_seq ack_seq field now;
      })
  incoming-Stays p remote_seq ack_seq field now = record {
    state = refl;
    keeps = record {
      address = refl;
      handshake = refl;
      ranged = λ v. v;
      counted = λ v. v;
      unnumbered = process_incoming-Unnumbered p.acknowledge_handler remote_seq ack_seq field now;
    };
  }

-- Holds of the peer that a command leaves, if it does not panic.
abbrev pub Leaves : {float : Float} → (Peer float → Type 0) → Processed float → Type 0
Leaves P none = Unit
Leaves P (some (o, q)) = P q
