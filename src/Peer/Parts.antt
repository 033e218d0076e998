-- ===== src/Peer/Parts.antt =====
-- crates/bitfold-peer/src/peer/mod.rs: the operations of a peer on its statistics, its congestion
-- control, its window, its fragments and its path-MTU discovery.
use bitfold.Prelude.{ℕ, ◌+◌, ◌%◌, ◌^◌, Bool, List, Option, none, some, length}
use bitfold.Core.Float.{Float}
use bitfold.Core.Time.{as_millis}
use bitfold.Fragment.Buffer.{cleanup_stale_fragments as cleanup_buffers}
use bitfold.FlowControl.{
  set_window_size as set_window, can_send_reliable as window_open,
  adjust_window_size as adjust_window,
}
use bitfold.Pmtu.{handle_pmtu as discover}
use bitfold.Congestion.{rto, loss_rate, update_throttle as update_congestion}
use bitfold.Acknowledgment.{SentPacket, packets_in_flight, dropped_packets}
use bitfold.Peer.{Peer, enqueue_command_peer}

module _ {float : Float} where
  -- Each lost packet adds one to the statistics.
  unfoldable pub gather_dropped_packets : Peer float → Option (List SentPacket × Peer float)
  gather_dropped_packets p = elim (dropped_packets p.acknowledge_handler) [
    | none ↦ none
    | some (dropped, h) ↦ some (
      dropped,
      record p {
        acknowledge_handler = h;
        statistics = record p.statistics {
          packets_lost = p.statistics.packets_lost + length dropped;
        };
      },
    )
  ]

  unfoldable pub record_packet_sent : Peer float → Peer float
  record_packet_sent p = record p {
    statistics = record p.statistics { packets_sent = p.statistics.packets_sent + 1 };
  }

  unfoldable pub record_packet_received : Peer float → Peer float
  record_packet_received p = record p {
    statistics = record p.statistics { packets_received = p.statistics.packets_received + 1 };
  }

  unfoldable pub record_data_sent : Peer float → ℕ → Peer float
  record_data_sent p bytes = record p {
    statistics = record p.statistics { bytes_sent = p.statistics.bytes_sent + bytes };
  }

  unfoldable pub record_data_received : Peer float → ℕ → Peer float
  record_data_received p bytes = record p {
    statistics = record p.statistics { bytes_received = p.statistics.bytes_received + bytes };
  }

  -- `None` is the overflow of `rto`.
  unfoldable pub handle_pmtu : Peer float → ℕ → ℕ → (ℕ → List ℕ) → Option (Peer float)
  handle_pmtu p time token fill = elim (rto p.acknowledge_handler.congestion) [
    | none ↦ none
    | some timeout ↦
        let (probe, pmtu) = discover p.config p.pmtu time timeout token fill in
        let p' : Peer float = record p { pmtu = pmtu } in
        some (elim probe [ none ↦ p' | some command ↦ (enqueue_command_peer p' command).1 ])
  ]

  unfoldable pub set_window_size : Peer float → ℕ → Option (Peer float)
  set_window_size p window_size = elim (set_window p.config p.flow_control window_size) [
    | none ↦ none
    | some f ↦ some (record p { flow_control = f })
  ]

  unfoldable pub can_send_reliable : Peer float → Option Bool
  can_send_reliable p =
      window_open p.config p.flow_control (packets_in_flight p.acknowledge_handler)

  unfoldable pub adjust_window_size : Peer float → Option (Peer float)
  adjust_window_size p =
      let congestion = p.acknowledge_handler.congestion in
      elim (adjust_window float p.config p.flow_control (loss_rate congestion)
        (as_millis congestion.rtt % 2 ^ 32)) [
          | none ↦ none
          | some f ↦ some (record p { flow_control = f })
        ]

  unfoldable pub update_throttle : Peer float → ℕ → Option (Bool × Peer float)
  update_throttle p time = elim (update_congestion p.acknowledge_handler.congestion time) [
    | none ↦ none
    | some (updated, c) ↦ some (
      updated,
      record p { acknowledge_handler = record p.acknowledge_handler { congestion = c } },
    )
  ]

  unfoldable pub cleanup_stale_fragments : Peer float → ℕ → Peer float
  cleanup_stale_fragments p time = record p {
    command_fragments = cleanup_buffers p.command_fragments time;
  }
