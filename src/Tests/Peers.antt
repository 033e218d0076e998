-- ===== src/Tests/Peers.antt =====
-- The queue of a peer as datagrams, and the handshake, at concrete peers.
use bitfold.Prelude.{ℕ, ◌+◌, ◌<◌, ◌≡◌, refl, inr, List, [], ◌∷◌, ◌++◌, some, none, arith, replicate}
use bitfold.Tests.Bytes.{big_endian, compressors, compressors-IsLossless, compressors-NeverFails}
use bitfold.Tests.Floats.{thousandths}
use bitfold.Core.Config.{default_config}
use bitfold.Core.Error.{done, failed, could_not_read_header}
use bitfold.Core.Shared.{SharedBytes, as_slice}
use bitfold.Command.{ProtocolCommand, send_unreliable, ping, connect}
use bitfold.Codec.Bytes.{ok}
use bitfold.Codec.Wire.{wire, wire_fields}
use bitfold.Codec.Packet.{AllFit}
use bitfold.Queue.{command_data_size, IsCounted}
use bitfold.Packet.{zero_packets}
use bitfold.Peer.{Peer, new}
use bitfold.Peer.State.{connecting, acknowledging_connect}
use bitfold.Peer.Process.{process_command}
use bitfold.Peer.Encode.{
  size_limit, static_overhead, bounded_compression_overhead, select, encode_queued_commands_bounded,
}
use bitfold.Peer.Encode.Selection.{IsLongest, select-IsLongest}
use bitfold.Peer.Encode.Transmit.{queued, Transmits, encode_queued_commands_bounded-Transmits}
use bitfold.Peer.Encode.Oversized.{oversized_first_blocks}
use bitfold.Peer.Kept.{Leaves}
use bitfold.Peer.Handshake.{Steps, process_command-Steps}
use bitfold.Peer.Handshake.Exchange.{offer, handshake_mismatch}

abbrev pub crc : List ℕ → ℕ
crc xs = 7

abbrev pub crc-lt : (xs : List ℕ) → crc xs < 4294967296
crc-lt xs = omega arith

abbrev pub five_bytes : SharedBytes
five_bytes = record { buffer = replicate 5 1; start = 0; len = 5 }

abbrev pub two_commands : List ProtocolCommand
two_commands = ping 3 ∷ send_unreliable 0 five_bytes ∷ []

-- A new peer with two commands in its queue.
abbrev pub fresh : ℕ → Peer thousandths
fresh session_id = new 1 default_config 0 session_id 5

abbrev pub loaded : Peer thousandths
loaded = record (fresh 11) {
  waiting = record {
    command_queue = record { commands = two_commands; max_queue_size = 256 };
    total_waiting_data = 5;
  };
}

pub two_commands-AllFit : AllFit two_commands
unfolding wire wire_fields as_slice
two_commands-AllFit = (
  omega arith,
  omega arith,
  (
    (omega arith, record { view = record { within = omega arith }; short = omega arith }),
    omega arith,
    tt,
  ),
)

pub loaded-IsCounted : IsCounted loaded.config loaded.waiting
unfolding command_data_size new
loaded-IsCounted = record { counter = refl; bounded = inr (omega arith) }

encode_queued_commands_bounded-Transmits_example :
    Transmits crc compressors loaded
      (fresh 12)
      (size_limit loaded.config (queued loaded) 1024)
      8
      9
      (encode_queued_commands_bounded crc compressors loaded 1024)
unfolding new size_limit static_overhead bounded_compression_overhead wire wire_fields
encode_queued_commands_bounded-Transmits_example =
    encode_queued_commands_bounded-Transmits crc compressors crc-lt compressors-IsLossless
      compressors-NeverFails loaded (fresh 12) (ping 3) (send_unreliable 0 five_bytes ∷ []) 1024 8 9
      refl loaded-IsCounted refl two_commands-AllFit (omega arith) (omega arith)

-- The second command does not fit into 20 bytes any more.
select-IsLongest_example : IsLongest 20 (6 + 0) two_commands (select 20 6 0 two_commands)
select-IsLongest_example = select-IsLongest 20 6 0 two_commands two_commands-AllFit (omega arith)

oversized_first_blocks_example :
    encode_queued_commands_bounded crc compressors loaded 12 ≡ (ok none, loaded)
unfolding new size_limit static_overhead bounded_compression_overhead wire wire_fields
oversized_first_blocks_example =
    oversized_first_blocks crc compressors loaded (ping 3) (send_unreliable 0 five_bytes ∷ []) 12
      refl (omega arith) (omega arith)

process_command-Steps_example :
    Leaves (Steps loaded) (process_command loaded (connect 1 1400 1 3 4) 8 9)
process_command-Steps_example = process_command-Steps loaded (connect 1 1400 1 3 4) 8 9

abbrev calling : Peer thousandths
calling = record (fresh 11) { state = connecting }

handshake_mismatch_example :
    (server' client' : Peer thousandths) × (process_command
        (fresh 12)
        (connect calling.config.channel_count 1400 1 calling.outgoing_session_id calling.connect_id)
        8
        9
      ≡ some (done zero_packets, server'))
    × (server'.state ≡ acknowledging_connect)
    × (queued server' ≡ queued (fresh 12) ++ offer calling (fresh 12) 9 ∷ [])
    × (process_command calling (offer calling (fresh 12) 9) 8 9
        ≡ some (failed could_not_read_header, client'))
    × (client'.state ≡ connecting)
    × (client'.incoming_session_id ≡ calling.outgoing_session_id)
unfolding new
handshake_mismatch_example =
    handshake_mismatch calling (fresh 12) 8 9 refl refl (omega arith) (ground arith)
