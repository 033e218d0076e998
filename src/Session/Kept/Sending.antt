-- ===== src/Session/Kept/Sending.antt =====
-- Encoding the queue and flushing it keep the state of the connection.
use bitfold.Prelude.{
  ℕ, zero, suc, ◌%◌, ◌^◌, refl, inl, inr, ◌&&◌, List, Option, none, some, length, min, drop, take,
  Bool-cases, Option-cases, ℕ-cases,
}
use bitfold.Core.Float.{Float}
use bitfold.Command.{new_packet}
use bitfold.Codec.Bytes.{ByteOrder, Result-cases}
use bitfold.Codec.Compression.{Compressors}
use bitfold.Throttle.{can_send_within_bandwidth, record_bytes_sent}
use bitfold.Peer.{Peer, drain_peer, has_queued_commands}
use bitfold.Peer.Parts.{record_packet_sent, record_data_sent}
use bitfold.Peer.Encode.{
  size_limit, static_overhead, select, requeue, seal, packet_of, encode_selected,
  encode_queued_commands_bounded,
}
use bitfold.Peer.Kept.{Stays, Stays-refl, Stays-trans, same-Stays}
use bitfold.Session.{Action}
use bitfold.Session.Run.{flush, flush_queue, sends_first}
use bitfold.Session.Kept.{Ends, requeue-Stays, drain-Stays}

module _ {float : Float} where
  sends_first-Ends :
      (p : Peer float) (out : List ℕ) (r : Option (List Action × Peer float))
      → Ends (Stays p) r
      → Ends (Stays p) (sends_first out r)
  sends_first-Ends p out none h = tt
  sends_first-Ends p out (some (actions, q)) h = h

  pub Ends-trans :
      (p q : Peer float) (r : Option (List Action × Peer float))
      → Stays p q
      → Ends (Stays q) r
      → Ends (Stays p) r
  Ends-trans p q none s h = tt
  Ends-trans p q (some (actions, q')) s h = Stays-trans s h

module _ {float : Float} ⦃bytes : ByteOrder⦄ (crc32 : List ℕ → ℕ) (c : Compressors) where
  encode_selected-Stays :
      (p : Peer float) (limit n : ℕ) → Stays p (encode_selected crc32 c p limit n).1
  unfolding encode_selected record_packet_sent record_data_sent
  encode_selected-Stays p limit n =
      let (drained, q) = drain_peer p in
      let r = requeue q (drop n drained) in
      let stays = Stays-trans (drain-Stays p) (requeue-Stays q (drop n drained)) in
      elim (Result-cases (seal crc32 c r.config (packet_of new_packet (take n drained)))) [
        | inl (e, failed) ↦ rw (encode_selected, failed) stays
        | inr (out, sealed) ↦
            rw (encode_selected, sealed) (Stays-trans stays (same-Stays refl refl refl refl refl))
      ]

  encode_queued_commands_bounded-Stays :
      (p : Peer float) (max_size : ℕ)
      → Stays p (encode_queued_commands_bounded crc32 c p max_size).1
  unfolding encode_queued_commands_bounded
  encode_queued_commands_bounded-Stays p max_size =
      let commands = p.waiting.command_queue.commands in
      let limit = size_limit p.config commands max_size in
      elim (Bool-cases (has_queued_commands p)) [
        | inr empty ↦ rw (encode_queued_commands_bounded, empty) (Stays-refl p)
        | inl some_queued ↦ elim (ℕ-cases (select limit (static_overhead p.config) 0 commands)) [
          | inl none_fits ↦
              rw (encode_queued_commands_bounded, some_queued, none_fits) (Stays-refl p)
          | inr (n, fits) ↦
              rw (encode_queued_commands_bounded, some_queued, fits)
                (encode_selected-Stays p limit (suc n))
        ]
      ]

  flush-Stays : (fuel : ℕ) (p : Peer float) → Ends (Stays p) (flush crc32 c fuel p)
  unfolding flush
  flush-Stays zero p = tt
  flush-Stays (suc fuel) p =
      let cap = min p.pmtu.fragment_size p.config.receive_buffer_max_size in
      let r = encode_queued_commands_bounded crc32 c p cap in
      let stays = encode_queued_commands_bounded-Stays p cap in
      elim (Bool-cases (has_queued_commands p && can_send_within_bandwidth p.bandwidth_throttle)) [
        | inr stops ↦ rw (flush, stops) (Stays-refl p)
        | inl goes ↦ elim (Result-cases r.0) [
          | inl (e, failed) ↦ rw (flush, goes, failed) stays
          | inr (o, encoded) ↦ elim (Option-cases o) [
            | inl nothing ↦ rw (flush, goes, encoded, nothing) stays
            | inr (out, something) ↦
                let next : Peer float = record r.1 {
                  bandwidth_throttle =
                      record_bytes_sent r.1.bandwidth_throttle (length out % 2 ^ 32);
                } in
                let stays' =
                  Stays-trans stays (same-Stays {p = r.1} {q = next} refl refl refl refl refl) in
                rw (flush, goes, encoded, something)
                  (sends_first-Ends p out (flush crc32 c fuel next)
                    (Ends-trans p next (flush crc32 c fuel next) stays' (flush-Stays fuel next)))
          ]
        ]
      ]

  pub flush_queue-Stays : (p : Peer float) → Ends (Stays p) (flush_queue crc32 c p)
  unfolding flush_queue
  flush_queue-Stays p = flush-Stays _ p
