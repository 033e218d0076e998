-- ===== src/Lib.antt =====
-- A model of bitfold, a reliable UDP protocol: its wire format, and the state that a peer keeps for
-- each connection.
--
-- A payload that an application sends is planned as one command or as fragments, which wait in the
-- command queue of the peer. Commands are batched in packets, encoded, compressed, and sealed with a
-- checksum. The receiver checks and strips the checksum, decompresses, decodes, puts fragments
-- together, and delivers packets in the order of their channel. Packets are acknowledged by number,
-- 32 more by a bitfield, and the losses and round-trip times that follow steer congestion control.
-- Flow control, bandwidth limits and path-MTU discovery decide when to send and how large a datagram
-- may be. The files and what they model:
--
--   Prelude         operators, lists, association lists (for `HashMap`) and tests on ℕ
--   Core            crates/bitfold-core/src/shared.rs and config.rs; `std::time` and checked words
--   Command         crates/bitfold-protocol/src/command.rs: `ProtocolCommand`, `CommandPacket`
--   Codec           crates/bitfold-protocol/src/command_codec: Encoder and Decoder have one function
--                   for each function and loop of encoder.rs and decoder.rs, Checksum and Compression
--                   those of checksum.rs and compression.rs. Wire is the format written down once,
--                   independent of both. RoundTrip is about single commands, Packet about packets.
--   Sequence        crates/bitfold-protocol/src/sequence_buffer.rs
--   Channel         crates/bitfold-peer/src/channel_state.rs: `process_ordered`, `process_sequenced`
--   Fragment        crates/bitfold-peer/src/fragment_buffer.rs (Buffer) and
--                   crates/bitfold-peer/src/peer/fragmenter.rs (Plan)
--   Unsequenced     crates/bitfold-peer/src/unsequenced.rs
--   Queue           crates/bitfold-peer/src/command_queue.rs, and `enqueue_command` and
--                   `drain_commands` of crates/bitfold-peer/src/peer/mod.rs
--   Congestion      crates/bitfold-protocol/src/congestion.rs
--   Acknowledgment  crates/bitfold-protocol/src/acknowledgment.rs
--   Packet          crates/bitfold-protocol/src/packet.rs: guarantees, packets and their constructors
--   Statistics      crates/bitfold-peer/src/statistics.rs
--   FlowControl     crates/bitfold-peer/src/flow_control.rs
--   Throttle        crates/bitfold-peer/src/bandwidth_throttle.rs
--   Pmtu            crates/bitfold-peer/src/pmtu_discovery.rs
--   Peer            crates/bitfold-peer/src/peer_state.rs (State); of crates/bitfold-peer/src/peer,
--                   mod.rs (Peer and Parts), command_processor.rs (Receive: the commands that carry
--                   data; Process: the others, `process_command` and `process_command_packet`) and
--                   encoder.rs (Encode). Kept and Handshake are about what commands keep and how
--                   they move the connection, the children of Encode about the way from the queue of
--                   one peer to the commands that another processes.
--   Session         crates/bitfold-host/src/peer_session.rs and event_types.rs; Run has the operations
--                   that send and receive, Flush and Drain are about the loop that flushes the queue,
--                   Answered about the results of a datagram, Reach about any sequence of operations,
--                   Quiet about those in which no command of the handshake is heard.
--   SessionManager  crates/bitfold-host/src/session_manager.rs over the trait of
--                   crates/bitfold-host/src/session.rs, which the module Peers fills with peers;
--                   Poll has `manual_poll`, Tally is about the counts of duplicate peers.
--   Tests           runs at concrete inputs
--
-- State is a record with the source's fields, and an operation on `&mut self` gives the new record
-- beside its result. Integers are natural numbers, with `% 2 ^ w` where the source wraps or casts and
-- an `Option` where it can overflow: the workspace is built with `overflow-checks = true` and
-- `panic = 'abort'`, so `none` is the end of the program. `io::Result` is `Result`; the texts of
-- errors are not modelled. A `Cursor` is the list of the bytes that it has not read. An `Instant` is
-- a number of nanoseconds, and the current time, where the code asks for it, an argument.
--
-- Loops over a counted range are recursion on the number of turns left. The `while let` loop of
-- `process_ordered` runs on fuel, one more than the number of buffered packets: each turn takes one
-- packet out of the map, so it does not run out.
--
-- The crates byteorder, crc32fast, flate2 and lz4 are parameters, with their documented laws as
-- fields of `ByteOrder` and `IsLossless` or as hypotheses. `f32` is the parameter `Float`.
--
-- The loop that flushes the queue of a session runs on fuel too, one more than the number of queued
-- commands, since every datagram takes one out; the loop over the chunks of an unsequenced packet on
-- one more than its bytes. An operation of a session is `none` where the program panics. Random
-- numbers, among them the session ids of a peer, are arguments. The counters of the statistics are
-- `u64`, and their overflow is not modelled.
--
-- The socket of a manager is the list of what one poll receives, each packet with the verdict of the
-- interceptor, and its users are the list of the events that they have sent.
--
-- Not modelled: sockets (crates/bitfold-host/src/socket.rs), the limiter
-- crates/bitfold-protocol/src/bandwidth.rs and the channel table
-- crates/bitfold-protocol/src/channel.rs, which no session uses, logging, and the reuse of buffers.
pub mod Prelude
pub mod Core
pub mod Command
pub mod Codec
pub mod Sequence
pub mod Channel
pub mod Congestion
pub mod Acknowledgment
pub mod Unsequenced
pub mod Queue
pub mod Packet
pub mod Statistics
pub mod Fragment
pub mod FlowControl
pub mod Throttle
pub mod Pmtu
pub mod Peer
pub mod Session
pub mod SessionManager
pub mod Tests
