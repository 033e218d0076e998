-- ===== src/Peer.antt =====
-- crates/bitfold-peer/src/peer/mod.rs: one remote peer, the state of all its parts and the operations
-- that hand on to them. The pools of buffers and the four sequence numbers that are never used are
-- left out. Random numbers are arguments.
pub mod State
pub mod Parts
pub mod Receive
pub mod Process
pub mod Encode
pub mod Kept
pub mod Handshake
use bitfold.Prelude.{
  ℕ, zero, suc, ◌+◌, ◌-◌, ◌%◌, ◌^◌, Bool, true, false, not, ◌&&◌, List, [], ◌∷◌, ◌++◌, Option, none,
  some, length, ◌==◌, if◌then◌else◌,
}
use bitfold.Core.Config.{Config}
use bitfold.Core.Float.{Float}
use bitfold.Core.Time.{duration_since, as_millis}
use bitfold.Core.Shared.{SharedBytes}
use bitfold.Command.{
  ProtocolCommand, acknowledge, ping, pong, connect, disconnect as disconnect_command,
}
use bitfold.Queue.{Waiting, new_queue, enqueue, enqueue_command, drain_commands, command_data_size}
use bitfold.Channel.{ChannelState}
use bitfold.Fragment.Buffer.{CommandFragmentBuffer, cleanup_stale_fragments as cleanup_buffers}
use bitfold.FlowControl.{
  FlowControl, new as new_flow, set_window_size as set_window, can_send_reliable as window_open,
  adjust_window_size as adjust_window,
}
use bitfold.Throttle.{BandwidthThrottle, new as new_throttle}
use bitfold.Pmtu.{PmtuDiscovery, new as new_pmtu, handle_pmtu as discover}
use bitfold.Unsequenced.{UnsequencedState, new as new_unsequenced}
use bitfold.Congestion.{
  CongestionControl, new as new_congestion, enable_advanced_throttling, rto, loss_rate,
  update_throttle as update_congestion,
}
use bitfold.Acknowledgment.{
  AcknowledgmentHandler, SentPacket, with_congestion, remote_sequence_num, ack_bitfield,
  packets_in_flight, dropped_packets,
}
use bitfold.Statistics.{PeerStatistics, empty_statistics}
use bitfold.Peer.State.{
  PeerState, idle, connecting, connected, acknowledging_connect, connection_succeeded,
  disconnecting, zombie, is_idle, is_established, is_disconnecting,
}

-- `waiting` is the command queue with the counter of the waiting data.
pub record Peer (float : Float) : Type 0 where
  pub last_heard : ℕ
  pub last_sent : ℕ
  pub remote_address : ℕ
  pub state : PeerState
  pub peer_id : ℕ
  pub incoming_session_id : ℕ
  pub outgoing_session_id : ℕ
  pub connect_id : ℕ
  pub next_unreliable_sequence : ℕ
  pub unsequenced_state : UnsequencedState
  pub acknowledge_handler : AcknowledgmentHandler float
  pub config : Config
  pub waiting : Waiting
  pub command_fragments : List (ℕ × CommandFragmentBuffer)
  pub channel_states : List (ℕ × ChannelState)
  pub flow_control : FlowControl
  pub bandwidth_throttle : BandwidthThrottle
  pub statistics : PeerStatistics
  pub pmtu : PmtuDiscovery

module _ {float : Float} where
  -- `AcknowledgmentHandler::new()`, with the throttling that the configuration asks for.
  unfoldable pub new_handler : Config → ℕ → AcknowledgmentHandler float
  unfolding enable_advanced_throttling
  new_handler config time =
      let congestion = new_congestion (float.literal 1 10) (float.literal 25 100) time in
      with_congestion (
        if config.use_advanced_throttling
        then enable_advanced_throttling congestion config.throttle_scale
            config.throttle_acceleration config.throttle_deceleration config.throttle_interval
        else congestion)

  -- The two random numbers are the outgoing session id and the connect id.
  unfoldable pub new : ℕ → Config → ℕ → (session_id connect_id : ℕ) → Peer float
  new addr config time session_id connect_id = record {
    last_heard = time;
    last_sent = time;
    remote_address = addr;
    state = idle;
    peer_id = 0;
    incoming_session_id = 0;
    outgoing_session_id = session_id;
    connect_id = connect_id;
    next_unreliable_sequence = 0;
    unsequenced_state = new_unsequenced;
    acknowledge_handler = new_handler config time;
    config = config;
    waiting = record { command_queue = new_queue 256; total_waiting_data = 0 };
    command_fragments = [];
    channel_states = [];
    flow_control = new_flow config;
    bandwidth_throttle =
        new_throttle config.outgoing_bandwidth_limit config.incoming_bandwidth_limit time;
    statistics = empty_statistics;
    pmtu = new_pmtu config time;
  }

  -- `self.command_queue.enqueue(command)`, which does not look at the limit.
  unfoldable pub push_command : Peer float → ProtocolCommand → Peer float
  push_command p command =
      let queue : Bool × _ = enqueue p.waiting.command_queue command in
      record p { waiting = record p.waiting { command_queue = queue.1 } }

  unfoldable pub enqueue_command_peer : Peer float → ProtocolCommand → Bool × Peer float
  enqueue_command_peer p command =
      let (flush, w) = enqueue_command p.config p.waiting command in
      (flush, record p { waiting = w })

  unfoldable pub initiate_connect : Peer float → Peer float
  initiate_connect p =
      if is_idle p.state
      then push_command (record p { state = connecting })
          (connect p.config.channel_count 1400 1 p.outgoing_session_id p.connect_id)
      else p

  -- The match of `record_send`.
  unfoldable pub sent_state : PeerState → Peer float → Peer float
  sent_state idle p =
      if p.config.use_connection_handshake
      then initiate_connect p
      else record p { state = connecting }
  sent_state connection_succeeded p = record p { state = connected }
  sent_state _ p = p

  -- Whether the connection became established, and the peer.
  unfoldable pub record_send : Peer float → Bool × Peer float
  record_send p =
      let p' = sent_state p.state p in (not (is_established p.state) && is_established p'.state, p')

  -- The match of `record_recv`.
  unfoldable pub received_state : PeerState → Peer float → Peer float
  received_state idle p =
      if not p.config.use_connection_handshake then record p { state = connected } else p
  received_state connecting p =
      if not p.config.use_connection_handshake then record p { state = connected } else p
  received_state acknowledging_connect p = record p { state = connected }
  received_state _ p = p

  unfoldable pub record_recv : Peer float → Bool × Peer float
  record_recv p =
      let p' = received_state p.state p in
      (not (is_established p.state) && is_established p'.state, p')

  unfoldable pub disconnect : Peer float → Peer float
  disconnect p =
      if not (is_disconnecting p.state)
      then push_command (record p { state = disconnecting }) (disconnect_command 0)
      else p

  unfoldable pub enqueue_ack_command : Peer float → Option ℕ → Peer float
  enqueue_ack_command p sent_time =
      (enqueue_command_peer p (
        acknowledge (remote_sequence_num p.acknowledge_handler) (ack_bitfield p.acknowledge_handler)
          sent_time)).1

  unfoldable pub enqueue_ping_command : Peer float → ℕ → Peer float
  enqueue_ping_command p timestamp = (enqueue_command_peer p (ping timestamp)).1

  unfoldable pub enqueue_pong_command : Peer float → ℕ → Peer float
  enqueue_pong_command p timestamp = (enqueue_command_peer p (pong timestamp)).1

  unfoldable pub has_queued_commands : Peer float → Bool
  has_queued_commands p = not (length p.waiting.command_queue.commands == 0)

  unfoldable pub drain_peer : Peer float → List ProtocolCommand × Peer float
  drain_peer p =
      let (commands, w) = drain_commands p.waiting in (commands, record p { waiting = w })
