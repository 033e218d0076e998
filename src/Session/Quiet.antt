-- ===== src/Session/Quiet.antt =====
-- Sessions that have not heard a command of the handshake.
pub mod Runs
use bitfold.Prelude.{
  ℕ, ◌≡◌, refl, inl, inr, Bool, true, false, not, List, [], ◌∷◌, some, none, length, ◌%◌, ◌^◌, All,
  Bool-cases, ap, ◌∙◌, sym, if◌then◌else◌, subst, Option,
}
use bitfold.Core.Float.{Float}
use bitfold.Core.Error.{done, failed}
use bitfold.Command.{
  ProtocolCommand, send_reliable, send_unreliable, send_unreliable_sequenced, send_unsequenced,
  send_fragment, send_unreliable_fragment, acknowledge, ping, pong, connect, verify_connect,
  disconnect, bandwidth_limit, throttle_configure, pmtu_probe, pmtu_reply,
}
use bitfold.Codec.Bytes.{ByteOrder, Result-cases, ok}
use bitfold.Codec.Compression.{Compressors}
use bitfold.Throttle.{can_receive_within_bandwidth, record_bytes_received}
use bitfold.Packet.{Packet, PacketType}
use bitfold.Pmtu.{create_reply}
use bitfold.Peer.{
  Peer, push_command, initiate_connect, sent_state, record_send, received_state, record_recv,
  enqueue_pong_command,
}
use bitfold.Peer.State.{
  PeerState, idle, connecting, acknowledging_connect, connection_succeeded, connected,
  disconnecting, zombie, is_idle, is_established, is_disconnecting,
}
use bitfold.Peer.Parts.{record_packet_received, record_data_received}
use bitfold.Peer.Receive.{Processed}
use bitfold.Peer.Process.{
  Received, behind, continue_with, unpack, process_arm, process_command, process_commands,
  process_command_packet, process_bandwidth_limit, process_throttle_configure,
}
use bitfold.Peer.Kept.{Stays, Leaves, enqueue_command_peer-Stays}
use bitfold.Peer.Kept.Data.{
  process_acknowledge-Stays, process_send_reliable-Stays, process_send_unreliable_sequenced-Stays,
  process_send_unsequenced-Stays, process_send_fragment-Stays,
  process_send_unreliable_fragment-Stays,
}
use bitfold.Session.{update_window}
use bitfold.Session.Run.{handle_received, process_packet, process_event, update}
use bitfold.Session.Kept.{Ends}

-- The commands of the handshake.
abbrev pub opens : ProtocolCommand → Bool
opens (connect c m v o i) = true
opens (verify_connect i c m incoming outgoing w) = true
opens _ = false

-- The states of a connection that has not been answered.
abbrev pub is_unheard : PeerState → Bool
is_unheard idle = true
is_unheard connecting = true
is_unheard disconnecting = true
is_unheard zombie = true
is_unheard _ = false

pub record Unheard {float : Float} (p : Peer float) : Type 0 where
  pub handshake : p.config.use_connection_handshake ≡ true
  pub state : is_unheard p.state ≡ true

pub unheard-is_established : (s : PeerState) → is_unheard s ≡ true → is_established s ≡ false
unfolding is_established
unheard-is_established idle h = refl
unheard-is_established connecting h = refl
unheard-is_established acknowledging_connect h = refl
unheard-is_established connection_succeeded h = cc
unheard-is_established connected h = cc
unheard-is_established disconnecting h = refl
unheard-is_established zombie h = refl

module _ {float : Float} where
  pub Stays-Unheard : {p q : Peer float} → Stays p q → Unheard p → Unheard q
  Stays-Unheard s h = record {
    handshake = s.keeps.handshake ∙ h.handshake;
    state = ap is_unheard s.state ∙ h.state;
  }

  Leaves-Unheard :
      (p : Peer float) (r : Processed float) → Unheard p → Leaves (Stays p) r → Leaves Unheard r
  Leaves-Unheard p none h l = tt
  Leaves-Unheard p (some (o, q)) h l = Stays-Unheard l h

  pub same :
      {p : Peer float} (q : Peer float)
      → Unheard p
      → q.state ≡ p.state
      → q.config ≡ p.config
      → Unheard q
  same q h e f = record {
    handshake = ap (λ (g : _). g.use_connection_handshake) f ∙ h.handshake;
    state = ap is_unheard e ∙ h.state;
  }

  arm-Unheard :
      (p : Peer float) (c : ProtocolCommand) (time random : ℕ)
      → opens c ≡ false
      → Unheard p
      → Leaves Unheard (process_arm p c time random)
  unfolding process_arm process_bandwidth_limit process_throttle_configure enqueue_pong_command
  arm-Unheard p (acknowledge s m t) time random o h =
      Leaves-Unheard p _ h (process_acknowledge-Stays p s m time)
  arm-Unheard p (ping t) time random o h = Stays-Unheard (enqueue_command_peer-Stays p (pong t)) h
  arm-Unheard p (pong t) time random o h = h
  arm-Unheard p (send_reliable c s b d) time random o h =
      Leaves-Unheard p _ h (process_send_reliable-Stays p c s b d time)
  arm-Unheard p (send_unreliable c d) time random o h = h
  arm-Unheard p (send_unreliable_sequenced c s d) time random o h =
      Leaves-Unheard p _ h (process_send_unreliable_sequenced-Stays p c s d)
  arm-Unheard p (send_unsequenced c g d) time random o h =
      Leaves-Unheard p _ h (process_send_unsequenced-Stays p c g d)
  arm-Unheard p (send_fragment c s b i n d) time random o h =
      Leaves-Unheard p _ h (process_send_fragment-Stays p c s b i n d time)
  arm-Unheard p (send_unreliable_fragment c s i n d) time random o h =
      Leaves-Unheard p _ h (process_send_unreliable_fragment-Stays p c s i n d time)
  arm-Unheard p (disconnect r) time random o h = record { handshake = h.handshake; state = refl }
  arm-Unheard p (connect c m v s i) time random o h = cc
  arm-Unheard p (verify_connect i c m incoming outgoing w) time random o h = cc
  arm-Unheard p (bandwidth_limit i s) time random o h = record {
    handshake = h.handshake;
    state = h.state;
  }
  arm-Unheard p (throttle_configure i a d) time random o h = record {
    handshake = h.handshake;
    state = h.state;
  }
  arm-Unheard p (pmtu_probe s t d) time random o h =
      Stays-Unheard (enqueue_command_peer-Stays p (create_reply s t)) h
  arm-Unheard p (pmtu_reply s t) time random o h = record {
    handshake = h.handshake;
    state = h.state;
  }

  process_command-Unheard :
      (p : Peer float) (c : ProtocolCommand) (time random : ℕ)
      → opens c ≡ false
      → Unheard p
      → Leaves Unheard (process_command p c time random)
  unfolding process_command
  process_command-Unheard p c time random o h =
      arm-Unheard (record p { last_heard = time }) c time random o
        (record { handshake = h.handshake; state = h.state })

  behind-Unheard :
      (packets : List (Packet × PacketType)) (r : Received float)
      → Ends Unheard r
      → Ends Unheard (behind packets r)
  behind-Unheard packets none h = tt
  behind-Unheard packets (some (failed e, q)) h = h
  behind-Unheard packets (some (done qs, q)) h = h

  continue_with-Unheard :
      (r : Processed float) (rest : Peer float → Received float)
      → Leaves Unheard r
      → ((q : Peer float) → Unheard q → Ends Unheard (rest q))
      → Ends Unheard (continue_with r rest)
  continue_with-Unheard none rest h k = tt
  continue_with-Unheard (some (failed e, q)) rest h k = h
  continue_with-Unheard (some (done packets, q)) rest h k = behind-Unheard _ (rest q) (k q h)

  pub process_commands-Unheard :
      (p : Peer float) (cs : List ProtocolCommand) (time random : ℕ)
      → All (λ c. opens c ≡ false) cs
      → Unheard p
      → Ends Unheard (process_commands p cs time random)
  unfolding process_commands
  process_commands-Unheard p [] time random o h = h
  process_commands-Unheard p (c ∷ cs) time random o h =
      continue_with-Unheard _ _ (process_command-Unheard p c time random o.0 h)
        (λ q k. process_commands-Unheard q cs time random o.1 k)
