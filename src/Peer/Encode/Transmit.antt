-- ===== src/Peer/Encode/Transmit.antt =====
-- From the queue of one peer to the commands that another peer processes.
use bitfold.Prelude.{
  ℕ, zero, suc, ◌+◌, ◌≤◌, ◌<◌, ◌^◌, ◌≡◌, refl, List, [], ◌∷◌, map, Option, some, arith, length,
  take, drop, ap, ◌∙◌, true, not, le→ltb, ◌==◌, subst,
}
use bitfold.Core.Float.{Float}
use bitfold.Core.Config.{Config}
use bitfold.Command.{ProtocolCommand}
use bitfold.Queue.{data_size, drain, drain_commands, IsCounted}
use bitfold.Codec.Bytes.{ByteOrder, Result, ok}
use bitfold.Codec.Compression.{Compressors, IsLossless}
use bitfold.Codec.Wire.{wire, detach}
use bitfold.Codec.Packet.{framed, AllFit, PacketFits}
use bitfold.Peer.{Peer, drain_peer, has_queued_commands}
use bitfold.Peer.Parts.{
  record_packet_sent, record_data_sent, record_packet_received, record_data_received,
}
use bitfold.Peer.Process.{unpack, process_commands, process_command_packet}
use bitfold.Peer.Encode.{
  size_limit, static_overhead, select, requeue, encode_selected, encode_queued_commands_bounded,
}
use bitfold.Peer.Encode.Selection.{
  IsLongest, select-IsLongest, length-framed, framed_ge, take-AllFit,
}
use bitfold.Peer.Encode.Requeue.{requeue-extended}
use bitfold.Peer.Encode.Sealing.{NeverFails, static_overhead_ge, packet_of-new, Sealed, seal-Sealed}

data_size-drop_le : (n : ℕ) (cs : List ProtocolCommand) → data_size (drop n cs) ≤ data_size cs
data_size-drop_le zero cs = omega arith
data_size-drop_le (suc n) [] = omega arith
data_size-drop_le (suc n) (c ∷ cs) = omega (arith, data_size-drop_le n cs)

module _ {float : Float} where
  abbrev pub queued : Peer float → List ProtocolCommand
  queued p = p.waiting.command_queue.commands

  -- The peer whose queue holds these commands only.
  abbrev pub holding : Peer float → List ProtocolCommand → Peer float
  holding p cs = record p {
    waiting = record {
      command_queue = record p.waiting.command_queue { commands = cs };
      total_waiting_data = data_size cs;
    };
  }

  -- Draining and queueing the rest leaves exactly the rest in the queue.
  pub requeue-drain :
      (p : Peer float) (n : ℕ)
      → IsCounted p.config p.waiting
      → requeue (drain_peer p).1 (drop n (drain_peer p).0) ≡ holding p (drop n (queued p))
  unfolding drain_peer drain_commands drain
  requeue-drain p n counted =
      let rest = drop n (queued p) in
      let sum : 0 + data_size rest ≡ data_size rest = omega arith in
      requeue-extended _ rest
        (ground (arith, counted.bounded, counted.counter, data_size-drop_le n (queued p)))
      ∙ ap
          (λ total. record p {
            waiting = record {
              command_queue = record p.waiting.command_queue { commands = rest };
              total_waiting_data = total;
            };
          })
          sum

unpack-same :
    ⦃bytes : ByteOrder⦄ (crc32 : List ℕ → ℕ) (c : Compressors) (config receiver : Config)
    (out : List ℕ)
    → receiver.use_checksums ≡ config.use_checksums
    → unpack crc32 c receiver out ≡ unpack crc32 c config out
unfolding unpack
unpack-same crc32 c config receiver out e = rw (unpack, e) refl

drained : {float : Float} (p : Peer float) → (drain_peer p).0 ≡ queued p
unfolding drain_peer drain_commands drain
drained p = refl

-- A first command that fits is selected.
longest_positive :
    (limit used n : ℕ) (first : ProtocolCommand) (others : List ProtocolCommand)
    → IsLongest limit used (first ∷ others) n
    → used + 2 + length (wire first) ≤ limit
    → (m : ℕ) × (n ≡ suc m)
unfolding framed
longest_positive limit used (suc m) first others best room = (m, refl)
longest_positive limit used zero first others best room =
    absurd (omega (arith, best.longest (omega arith), length-framed first []))

module _ {float : Float} ⦃bytes : ByteOrder⦄ (crc32 : List ℕ → ℕ) (c : Compressors) where
  encode_selected-eq :
      (p : Peer float) (limit n : ℕ) (out : List ℕ)
      → IsCounted p.config p.waiting
      → Sealed crc32 c p.config (take n (queued p)) out
      → length out ≤ limit
      → encode_selected crc32 c p limit n ≡ (
        ok (some out),
        record_data_sent (record_packet_sent (holding p (drop n (queued p)))) (length out),
      )
  unfolding encode_selected
  encode_selected-eq p limit n out counted s small =
      let back = requeue-drain p n counted in
      rw
        (
          encode_selected,
          back,
          drained p,
          packet_of-new (take n (queued p)),
          s.sealed,
          le→ltb limit (length out) small,
        )
        (ap
          (λ (r : Peer float).
            (ok (some out), record_data_sent (record_packet_sent r) (length out)))
          back)

  -- A datagram holds the longest part of the queue that fits, within the limit; the peer `q` that
  -- receives it processes it; the others stay queued, in order.
  pub record Transmits (p q : Peer float) (limit time random : ℕ)
      (r : Result (Option (List ℕ)) × Peer float) : Type 0 where
    pub out : List ℕ
    pub count : ℕ
    pub sends : r.0 ≡ ok (some out)
    pub size : length out ≤ limit
    pub progress : 0 < count
    pub longest : IsLongest limit (static_overhead p.config) (queued p) count
    pub unpacked : unpack crc32 c p.config out ≡ ok (map detach (take count (queued p)))
    pub received :
        process_command_packet crc32 c q out time random
        ≡ process_commands
            (record_packet_received (record_data_received q (length out)))
            (map detach (take count (queued p)))
            time
            random
    pub left : queued r.1 ≡ drop count (queued p)
    pub counted : IsCounted r.1.config r.1.waiting
    pub unchanged : r.1 ≡ record p { waiting = r.1.waiting; statistics = r.1.statistics }

  module _ (crc32-lt : (xs : List ℕ) → crc32 xs < 2 ^ 32) (lossless : IsLossless c)
      (never : NeverFails c) where
    -- The step behind the selection, for a number of commands that fit.
    encode_selected-Transmits :
        (p q : Peer float) (limit n time random : ℕ)
        → q.config.use_checksums ≡ p.config.use_checksums
        → IsCounted p.config p.waiting
        → AllFit (queued p)
        → limit ≤ 1537
        → IsLongest limit (static_overhead p.config) (queued p) (suc n)
        → Transmits p q limit time random (encode_selected crc32 c p limit (suc n))
    unfolding encode_selected process_command_packet record_packet_sent record_data_sent
        record_data_received drain_peer drain_commands drain
    encode_selected-Transmits p q limit n time random same counted fit small best =
        let cs = take (suc n) (queued p) in
        let many = framed_ge cs in
        let base = static_overhead_ge p.config in
        let fits : PacketFits (record { commands = cs }) = record {
          count = omega (arith, many, best.fits);
          each = take-AllFit (suc n) (queued p) fit;
        } in
        let (out, s) =
          seal-Sealed crc32 c crc32-lt lossless never p.config cs fits (omega (arith, best.fits)) in
        let within : length out ≤ limit = omega (arith, s.size, best.fits) in
        let e = encode_selected-eq p limit (suc n) out counted s within in
        record {
          out = out;
          count = suc n;
          sends = rw e refl;
          size = within;
          progress = omega arith;
          longest = best;
          unpacked = s.unpacked;
          received =
              rw
                (process_command_packet, unpack-same crc32 c p.config q.config out same, s.unpacked)
                refl;
          left = rw (e, record_data_sent, record_packet_sent) refl;
          unchanged = rw (e, record_data_sent, record_packet_sent) refl;
          counted =
              rw (e, record_data_sent, record_packet_sent)
                (record {
                  counter = refl;
                  bounded = ground (
                    arith,
                    counted.bounded,
                    counted.counter,
                    data_size-drop_le (suc n) (queued p),
                  );
                });
        }

    -- For a counted queue of commands that fit, whose first command fits into the limit, and a limit
    -- of at most 1537 bytes (so that no more than 255 commands fit), one datagram is always sent,
    -- if compression succeeds (zlib on any input, lz4 on any input up to its maximum size) and is
    -- lossless, and the checksum is 32 bits wide. It is not larger than the limit, carries at least
    -- one command and the longest part of the queue that fits, each command behind its length and
    -- beside the overhead, and makes a peer with the same choice of checksums process exactly these
    -- commands, in order; the rest stays queued, in order, and counted.
    pub encode_queued_commands_bounded-Transmits :
        (p q : Peer float) (first : ProtocolCommand) (others : List ProtocolCommand)
        (max_size time random : ℕ)
        → q.config.use_checksums ≡ p.config.use_checksums
        → IsCounted p.config p.waiting
        → queued p ≡ first ∷ others
        → AllFit (queued p)
        → static_overhead p.config + 2 + length (wire first)
          ≤ size_limit p.config (queued p) max_size
        → size_limit p.config (queued p) max_size ≤ 1537
        → Transmits p q
            (size_limit p.config (queued p) max_size)
            time
            random
            (encode_queued_commands_bounded crc32 c p max_size)
    unfolding encode_queued_commands_bounded has_queued_commands
    encode_queued_commands_bounded-Transmits p q first others max_size time random same counted e
          fit room small =
        let limit = size_limit p.config (queued p) max_size in
        let best =
          select-IsLongest limit (static_overhead p.config) 0 (queued p) fit
            (omega (arith, room)) in
        let n = select limit (static_overhead p.config) 0 (queued p) in
        let same_overhead : static_overhead p.config + 0 ≡ static_overhead p.config = omega arith in
        let best' : IsLongest limit (static_overhead p.config) (queued p) n =
          subst (λ o. IsLongest limit o (queued p) n) same_overhead best in
        let (m, positive) =
          longest_positive limit (static_overhead p.config) n first others
            (subst (λ cs. IsLongest limit (static_overhead p.config) cs n) e best') room in
        let some_queued : not (length (queued p) == 0) ≡ true = rw e (ground arith) in
        rw (encode_queued_commands_bounded, has_queued_commands, some_queued, positive)
          (encode_selected-Transmits p q limit m time random same counted fit small
            (subst (λ n. IsLongest limit (static_overhead p.config) (queued p) n) positive best'))
