-- ===== src/Session/Flush.antt =====
-- The loop that flushes the queue: it ends, and what it sends.
use bitfold.Prelude.{
  ℕ, zero, suc, ◌+◌, ◌-◌, ◌≤◌, ◌<◌, ◌^◌, ◌%◌, ◌≡◌, refl, inl, inr, List, [], ◌∷◌, Option, none,
  some, arith, length, take, drop, length-drop, length-append, ap, sym, ◌∙◌, true, ◌&&◌, min,
  Bool-cases, Option-cases, ℕ-cases,
}
use bitfold.Core.Float.{Float}
use bitfold.Command.{ProtocolCommand, new_packet}
use bitfold.Queue.{drain, drain_commands, enqueue, enqueue_command}
use bitfold.Codec.Bytes.{ByteOrder, Result, ok, Result-cases}
use bitfold.Codec.Compression.{Compressors}
use bitfold.Throttle.{can_send_within_bandwidth, record_bytes_sent}
use bitfold.Peer.{Peer, drain_peer, has_queued_commands, enqueue_command_peer}
use bitfold.Peer.Parts.{record_packet_sent, record_data_sent}
use bitfold.Peer.Encode.{
  size_limit, static_overhead, select, requeue, seal, packet_of, encode_selected,
  encode_queued_commands_bounded,
}
use bitfold.Peer.Encode.Transmit.{queued}
use bitfold.Session.{Action, send_action}
use bitfold.Session.Run.{flush, flush_queue}

module _ {float : Float} where
  enqueue_command_peer-le :
      (p : Peer float) (c : ProtocolCommand)
      → length (queued (enqueue_command_peer p c).1) ≤ length (queued p) + 1
  unfolding enqueue_command_peer enqueue_command enqueue
  enqueue_command_peer-le p c =
      ground (arith, length-append p.waiting.command_queue.commands (c ∷ []))

  requeue-le :
      (p : Peer float) (cs : List ProtocolCommand)
      → length (queued (requeue p cs)) ≤ length (queued p) + length cs
  unfolding requeue
  requeue-le p [] = omega arith
  requeue-le p (c ∷ cs) =
      omega (arith, requeue-le (enqueue_command_peer p c).1 cs, enqueue_command_peer-le p c)

  requeue-drain-le :
      (p : Peer float) (n : ℕ)
      → length (queued (requeue (drain_peer p).1 (drop n (drain_peer p).0))) ≤ length (queued p) - n
  unfolding drain_peer drain_commands drain
  requeue-drain-le p n =
      omega (arith, requeue-le (drain_peer p).1 (drop n (queued p)), length-drop n (queued p))

  some_queued-lt : (p : Peer float) → has_queued_commands p ≡ true → 0 < length (queued p)
  unfolding has_queued_commands
  some_queued-lt p e = ground (arith, e)

refused : {out : List ℕ} → Path (Result (Option (List ℕ))) (ok none) (ok (some out)) → ⊥
refused e = cc

module _ {float : Float} ⦃bytes : ByteOrder⦄ (crc32 : List ℕ → ℕ) (c : Compressors) where
  encode_selected-le :
      (p : Peer float) (limit n : ℕ)
      → length (queued (encode_selected crc32 c p limit n).1) ≤ length (queued p) - n
  unfolding encode_selected record_packet_sent record_data_sent
  encode_selected-le p limit n =
      let (drained, q) = drain_peer p in
      let r = requeue q (drop n drained) in
      let size = requeue-drain-le p n in
      elim (Result-cases (seal crc32 c r.config (packet_of new_packet (take n drained)))) [
        | inl (e, failed) ↦ rw (encode_selected, failed) size
        | inr (out, sealed) ↦ rw (encode_selected, sealed) size
      ]

  -- A datagram that is sent takes a command out of the queue.
  encode_queued_commands_bounded-lt :
      (p : Peer float) (max_size : ℕ) (out : List ℕ)
      → (encode_queued_commands_bounded crc32 c p max_size).0 ≡ ok (some out)
      → length (queued (encode_queued_commands_bounded crc32 c p max_size).1) < length (queued p)
  unfolding encode_queued_commands_bounded
  encode_queued_commands_bounded-lt p max_size out e =
      let limit = size_limit p.config (queued p) max_size in
      elim (Bool-cases (has_queued_commands p)) [
        | inl some_queued ↦ elim (ℕ-cases (select limit (static_overhead p.config) 0 (queued p))) [
          | inl none_fits ↦
              absurd (
                refused
                  (sym (rw (encode_queued_commands_bounded, some_queued, none_fits) refl) ∙ e))
          | inr (n, fits) ↦
              let size = encode_selected-le p limit (suc n) in
              let more : 0 < length (queued p) = some_queued-lt p some_queued in
              rw (encode_queued_commands_bounded, some_queued, fits) (omega (arith, size, more))
        ]
        | inr empty ↦ absurd (refused (sym (rw (encode_queued_commands_bounded, empty) refl) ∙ e))
      ]

  flush_total :
      (fuel : ℕ) (p : Peer float)
      → length (queued p) < fuel
      → (actions : List Action) × (q : Peer float) × (flush crc32 c fuel p ≡ some (actions, q))
  unfolding flush
  flush_total zero p h = absurd (omega arith)
  flush_total (suc fuel) p h =
      let cap = min p.pmtu.fragment_size p.config.receive_buffer_max_size in
      let r = encode_queued_commands_bounded crc32 c p cap in
      elim (Bool-cases (has_queued_commands p && can_send_within_bandwidth p.bandwidth_throttle)) [
        | inr stops ↦ ([], p, rw (flush, stops) refl)
        | inl goes ↦ elim (Result-cases r.0) [
          | inl (e, failed) ↦ ([], r.1, rw (flush, goes, failed) refl)
          | inr (o, encoded) ↦ elim (Option-cases o) [
            | inl nothing ↦ ([], r.1, rw (flush, goes, encoded, nothing) refl)
            | inr (out, something) ↦
                let sent : r.0 ≡ ok (some out) =
                  encoded ∙ ap (λ (x : Option (List ℕ)). ok x) something in
                let smaller = encode_queued_commands_bounded-lt p cap out sent in
                let next : Peer float = record r.1 {
                  bandwidth_throttle =
                      record_bytes_sent r.1.bandwidth_throttle (length out % 2 ^ 32);
                } in
                let (actions, q, e) = flush_total fuel next (omega (arith, smaller)) in
                (send_action out ∷ actions, q, rw (flush, goes, sent, e) refl)
          ]
        ]
      ]

  -- Flushing ends for every peer, compressor and queue: each datagram takes at least one command out.
  pub flush_queue_total :
      (p : Peer float)
      → (actions : List Action) × (q : Peer float) × (flush_queue crc32 c p ≡ some (actions, q))
  unfolding flush_queue
  flush_queue_total p = flush_total _ p (omega arith)
