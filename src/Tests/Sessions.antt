-- ===== src/Tests/Sessions.antt =====
-- Sessions that flush their queue, that receive a `Connect`, and that run, at concrete peers.
use bitfold.Prelude.{
  All, subst, sym, ◌∙◌, false, ℕ, ◌≤◌, ◌≡◌, refl, not, List, [], ◌∷◌, some, none, Option, arith,
}
use bitfold.Tests.Bytes.{big_endian, compressors, compressors-IsLossless, compressors-NeverFails}
use bitfold.Tests.Floats.{thousandths}
use bitfold.Tests.Peers.{crc, crc-lt, fresh, loaded, two_commands-AllFit, loaded-IsCounted}
use bitfold.Core.Config.{default_config}
use bitfold.Command.{ProtocolCommand, ping, connect, add_command, new_packet}
use bitfold.Codec.Bytes.{Result, ok, err}
use bitfold.Codec.Checksum.{validate_and_strip_checksum}
use bitfold.Codec.Compression.{decompress, decompress_payload}
use bitfold.Codec.Decoder.{
  decode_packet, read_packet, decode_commands, decode_sliced, decode_command, decode_fields,
  decode_connect, decode_ping,
}
use bitfold.Codec.Wire.{wire, wire_fields}
use bitfold.Core.Shared.{as_slice}
use bitfold.Queue.{IsCounted}
use bitfold.Throttle.{can_receive_within_bandwidth, update_bandwidth_window, new as new_throttle}
use bitfold.Pmtu.{new as new_pmtu}
use bitfold.Packet.{Packet, ordered, reliable}
use bitfold.Fragment.Plan.{enqueue_all, plan_reliable}
use bitfold.Peer.{Peer, new, disconnect}
use bitfold.Peer.State.{connected, is_established}
use bitfold.Peer.Process.{unpack}
use bitfold.Peer.Kept.{Unnumbered}
use bitfold.Peer.Encode.{static_overhead, bounded_compression_overhead}
use bitfold.Peer.Encode.Transmit.{queued}
use bitfold.Session.{Action, emit_action, connect_event, enqueue_packet, is_unordered, should_drop}
use bitfold.Session.Reach.Reports.{Reports, IsOwn}
use bitfold.Session.Run.{process_packet, process_event, flush_queue}
use bitfold.Peer.Handshake.Answered.{Answers}
use bitfold.Session.Flush.{flush_queue_total}
use bitfold.Session.Drain.{IsSendable, Delivers, flush_queue-Delivers}
use bitfold.Session.Opening.{connect_establishes}
use bitfold.Session.Reach.{stage}
use bitfold.Session.Quiet.{opens}
use bitfold.Session.Quiet.Runs.{IsQuiet, Quiet-is_established}
use bitfold.Session.Reach.Runs.{
  Run, starts, receives, Run-stage, disconnects, Run-Answers, Run-IsCounted, Run-sequence_zero,
}

-- Without a limit on the bandwidth.
abbrev eager : Peer thousandths
eager = record loaded {
  bandwidth_throttle = record loaded.bandwidth_throttle { outgoing_bandwidth_limit = 0 };
}

eager-IsSendable : IsSendable eager
unfolding new new_pmtu new_throttle static_overhead bounded_compression_overhead wire wire_fields
    as_slice
eager-IsSendable = record {
  counted = loaded-IsCounted;
  fit = two_commands-AllFit;
  each = (omega arith, (omega arith, tt));
  buffer = omega arith;
  unlimited = refl;
}

flush_queue_total_example :
    (actions : List Action) × (q : Peer thousandths) × (flush_queue crc compressors loaded
      ≡ some (actions, q))
flush_queue_total_example = flush_queue_total crc compressors loaded

flush_queue-Delivers_example :
    (actions : List Action) × (q : Peer thousandths) × (flush_queue crc compressors eager
      ≡ some (actions, q))
    × (queued q ≡ [])
    × Delivers crc compressors eager.config actions (queued eager)
flush_queue-Delivers_example =
    flush_queue-Delivers crc compressors crc-lt compressors-IsLossless compressors-NeverFails eager
      eager-IsSendable

-- A `Connect`, not compressed, with its checksum.
abbrev hello : List ℕ
hello = 1 ∷ 0 ∷ 12 ∷ 10 ∷ 1 ∷ 5 ∷ 120 ∷ 0 ∷ 1 ∷ 0 ∷ 3 ∷ 0 ∷ 0 ∷ 0 ∷ 4 ∷ 0 ∷ 0 ∷ 0 ∷ 7 ∷ []

hello-unpack : unpack crc compressors (fresh 12).config (0 ∷ hello) ≡ ok (connect 1 1400 1 3 4 ∷ [])
unfolding new unpack validate_and_strip_checksum decompress decompress_payload decode_packet
    read_packet decode_commands decode_sliced decode_command decode_fields decode_connect
    add_command new_packet
hello-unpack = refl

connect_establishes_example :
    (q : Peer thousandths) × (process_packet crc compressors (fresh 12) (0 ∷ hello) 8 9
      ≡ some (emit_action (connect_event 1) ∷ [], q))
    × (q.state ≡ connected)
unfolding new new_throttle can_receive_within_bandwidth update_bandwidth_window
connect_establishes_example =
    connect_establishes crc compressors (fresh 12) 0 hello 1 1400 1 3 4 8 9 refl refl hello-unpack

opening :
    (q : Peer thousandths) × (process_packet crc compressors (fresh 12) (0 ∷ hello) 8 9
      ≡ some (emit_action (connect_event 1) ∷ [], q))
    × (q.state ≡ connected)
unfolding new new_throttle can_receive_within_bandwidth update_bandwidth_window
opening =
    connect_establishes crc compressors (fresh 12) 0 hello 1 1400 1 3 4 8 9 refl refl hello-unpack

-- The session that has received it.
abbrev server : Peer thousandths
server = opening.0

server-Run : Run crc compressors (new 1 default_config 0 12 5) server
server-Run = receives (0 ∷ hello) 8 9 (emit_action (connect_event 1) ∷ []) starts opening.1

Run-stage_example : stage (fresh 12).state ≤ stage server.state
Run-stage_example = Run-stage crc compressors (fresh 12) server server-Run

abbrev news : Packet
news = record {
  addr = 1;
  payload = 4 ∷ 2 ∷ [];
  delivery = reliable;
  ordering = ordered none;
  channel_id = 0;
}

Run-IsCounted_example :
    IsCounted server.config server.waiting
    × (server.remote_address ≡ 1)
    × Reports 1 (process_packet crc compressors server (0 ∷ hello) 9 4)
    × Reports 1 (process_event crc compressors server news)
    × All (IsOwn 1) (should_drop server 9).1
Run-IsCounted_example =
    Run-IsCounted crc compressors 1 default_config 0 12 5 server (0 ∷ hello) 9 4 news server-Run

Run-Answers_example : Answers (process_packet crc compressors server (0 ∷ hello) 9 4)
Run-Answers_example =
    Run-Answers crc compressors 1 default_config 0 12 5 server (0 ∷ hello) 9 4 (omega arith)
      server-Run

-- A `Ping` in place of the `Connect`.
abbrev knock : List ℕ
knock = 1 ∷ 0 ∷ 5 ∷ 8 ∷ 0 ∷ 0 ∷ 0 ∷ 3 ∷ 0 ∷ 0 ∷ 0 ∷ 7 ∷ []

knock-unpack : unpack crc compressors (fresh 12).config (0 ∷ knock) ≡ ok (ping 3 ∷ [])
unfolding new unpack validate_and_strip_checksum decompress decompress_payload decode_packet
    read_packet decode_commands decode_sliced decode_command decode_fields decode_ping add_command
    new_packet
knock-unpack = refl

answer :
    (r : Option (List Action × Peer thousandths))
    → Answers r
    → (actions : List Action) × (q : Peer thousandths) × (r ≡ some (actions, q))
answer none h = absurd h
answer (some (actions, q)) h = (actions, q, refl)

knocked :
    (actions : List Action) × (q : Peer thousandths) × (process_packet crc compressors
        (fresh 12)
        (0 ∷ knock)
        8
        9
      ≡ some (actions, q))
knocked = answer _ (
    Run-Answers crc compressors 1 default_config 0 12 5 (fresh 12) (0 ∷ knock) 8 9 (omega arith)
      starts)

abbrev HasNone : Result (List ProtocolCommand) → Type 0
HasNone (ok cs) = All (λ command. opens command ≡ false) cs
HasNone (err e) = Unit

knock-IsQuiet : IsQuiet crc compressors (fresh 12).config (0 ∷ knock)
knock-IsQuiet cs e = subst HasNone (sym knock-unpack ∙ e) (refl, tt)

Quiet-is_established_example : is_established (disconnect knocked.1).state ≡ false
Quiet-is_established_example =
    Quiet-is_established crc compressors 1 default_config 0 12 5 (disconnect knocked.1) refl
      (disconnects (receives (0 ∷ knock) 8 9 knocked.0 starts knocked.2)) (knock-IsQuiet, tt)

Run-sequence_zero_example :
    Unnumbered server.acknowledge_handler
    × (enqueue_packet server reliable (ordered none) 0 (1 ∷ 2 ∷ [])
        ≡ some (record server {
          waiting = enqueue_all server.config server.waiting (
              plan_reliable server.config server.pmtu.fragment_size 0 0
                (not (is_unordered (ordered none)))
                (1 ∷ 2 ∷ []));
        }))
Run-sequence_zero_example =
    Run-sequence_zero crc compressors 1 default_config 0 12 5 server (ordered none) 0 (1 ∷ 2 ∷ [])
      server-Run
