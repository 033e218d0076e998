-- ===== src/Session/Kept.antt =====
-- Sending, queueing and the regular update keep the state of the connection.
pub mod Sending
use bitfold.Prelude.{
  ℕ, zero, suc, ◌+◌, ◌-◌, ◌%◌, ◌^◌, ◌≡◌, refl, inl, inr, Bool, true, false, not, ◌&&◌, List, [],
  ◌∷◌, Option, none, some, length, min, drop, take, ltb, if◌then◌else◌, Bool-cases, Option-cases,
  ℕ-cases,
}
use bitfold.Core.Float.{Float}
use bitfold.Core.Shared.{SharedBytes, slice}
use bitfold.Core.Config.{Config}
use bitfold.Command.{ProtocolCommand, new_packet, ping}
use bitfold.Codec.Bytes.{ByteOrder, Result, ok, err, Result-cases}
use bitfold.Codec.Compression.{Compressors}
use bitfold.Congestion.{rto}
use bitfold.Pmtu.{handle_pmtu as discover}
use bitfold.Throttle.{can_send_within_bandwidth, record_bytes_sent}
use bitfold.Packet.{
  DeliveryGuarantee, reliable, unreliable, OrderingGuarantee, unordered, sequenced, ordered,
  unsequenced,
}
use bitfold.Queue.{Waiting, enqueue_command, IsCounted, enqueue_command-IsCounted}
use bitfold.Fragment.Plan.{enqueue_all, enqueue_reliable_data, enqueue_unreliable_data}
use bitfold.Peer.{Peer, drain_peer, has_queued_commands, enqueue_command_peer, enqueue_ping_command}
use bitfold.Peer.Parts.{record_packet_sent, record_data_sent, handle_pmtu}
use bitfold.Peer.Encode.{
  size_limit, static_overhead, select, requeue, seal, packet_of, encode_selected,
  encode_queued_commands_bounded,
}
use bitfold.Peer.Kept.{
  Keeps, Stays, Stays-refl, Stays-trans, same-Stays, enqueue_command_peer-Stays,
}
use bitfold.Peer.Handshake.{Every}
use bitfold.Session.{
  Action, enqueue_chunk, enqueue_chunks, enqueue_unsequenced, enqueue_packet, update_window,
  keepalive,
}
use bitfold.Session.Run.{flush, flush_queue, sends_first, update}

-- Holds of the peer that an operation leaves, if it does not panic.
abbrev pub Ends :
    {float : Float} {A : Type 0} → (Peer float → Type 0) → Option (A × Peer float) → Type 0
Ends P none = Unit
Ends P (some (a, q)) = P q

enqueue_all-IsCounted :
    (config : Config) (w : Waiting) (cs : List ProtocolCommand)
    → IsCounted config w
    → IsCounted config (enqueue_all config w cs)
unfolding enqueue_all
enqueue_all-IsCounted config w [] v = v
enqueue_all-IsCounted config w (c ∷ cs) v =
    enqueue_all-IsCounted config (enqueue_command config w c).1 cs
      (enqueue_command-IsCounted config w c v).0

module _ {float : Float} where
  pub requeue-Stays : (p : Peer float) (cs : List ProtocolCommand) → Stays p (requeue p cs)
  unfolding requeue
  requeue-Stays p [] = Stays-refl p
  requeue-Stays p (c ∷ cs) =
      Stays-trans (enqueue_command_peer-Stays p c) (requeue-Stays (enqueue_command_peer p c).1 cs)

  -- The waiting commands change, but stay counted.
  waiting-Stays :
      (p : Peer float) (w : Waiting)
      → (IsCounted p.config p.waiting → IsCounted p.config w)
      → Stays p (record p { waiting = w })
  waiting-Stays p w counted = record {
    state = refl;
    keeps = record {
      address = refl;
      handshake = refl;
      ranged = λ v. v;
      counted = counted;
      unnumbered = λ v. v;
    };
  }

  pub drain-Stays : (p : Peer float) → Stays p (drain_peer p).1
  unfolding drain_peer
  drain-Stays p =
      waiting-Stays p _ (λ v. (enqueue_command-IsCounted p.config p.waiting (ping 0) v).1)

  enqueue_chunk-Stays :
      (p : Peer float) (channel_id : ℕ) (chunk : SharedBytes)
      → Stays p (enqueue_chunk p channel_id chunk)
  unfolding enqueue_chunk
  enqueue_chunk-Stays p channel_id chunk =
      Stays-trans (same-Stays refl refl refl refl refl) (enqueue_command_peer-Stays _ _)

  Every-trans :
      {p q : Peer float} (o : Option (Peer float))
      → Stays p q
      → Every (Stays q) o
      → Every (Stays p) o
  Every-trans none s h = tt
  Every-trans (some r) s h = Stays-trans s h

  enqueue_chunks-Stays :
      (fuel : ℕ) (p : Peer float) (channel_id chunk_size offset : ℕ) (base : SharedBytes)
      → Every (Stays p) (enqueue_chunks fuel p channel_id chunk_size offset base)
  unfolding enqueue_chunks
  enqueue_chunks-Stays zero p channel_id chunk_size offset base = tt
  enqueue_chunks-Stays (suc fuel) p channel_id chunk_size offset base =
      let len = min chunk_size (base.len - offset) in
      elim (Bool-cases (ltb offset base.len)) [
        | inr ends ↦ rw (enqueue_chunks, ends) (Stays-refl p)
        | inl more ↦ elim (Option-cases (slice base offset len)) [
          | inl panics ↦ rw (enqueue_chunks, more, panics) tt
          | inr (chunk, e) ↦
              rw (enqueue_chunks, more, e)
                (Every-trans _ (enqueue_chunk-Stays p channel_id chunk)
                  (enqueue_chunks-Stays fuel _ channel_id chunk_size (offset + len) base))
        ]
      ]

  unreliable-Stays :
      (p : Peer float) (next_sequence : ℕ) (cs : List ProtocolCommand)
      → Stays p (record p {
        next_unreliable_sequence = next_sequence;
        waiting = enqueue_all p.config p.waiting cs;
      })
  unreliable-Stays p next_sequence cs =
      Stays-trans (waiting-Stays p _ (enqueue_all-IsCounted p.config p.waiting cs))
        (same-Stays refl refl refl refl refl)

  pub enqueue_packet-Stays :
      (p : Peer float) (delivery : DeliveryGuarantee) (ordering : OrderingGuarantee)
      (channel_id : ℕ) (payload : List ℕ)
      → Every (Stays p) (enqueue_packet p delivery ordering channel_id payload)
  unfolding enqueue_packet enqueue_unsequenced enqueue_reliable_data enqueue_unreliable_data
  enqueue_packet-Stays p reliable ordering channel_id payload =
      waiting-Stays p _ (enqueue_all-IsCounted p.config p.waiting _)
  enqueue_packet-Stays p unreliable unsequenced channel_id payload =
      enqueue_chunks-Stays _ p channel_id _ 0 _
  enqueue_packet-Stays p unreliable unordered channel_id payload = unreliable-Stays p _ _
  enqueue_packet-Stays p unreliable (sequenced s) channel_id payload = unreliable-Stays p _ _
  enqueue_packet-Stays p unreliable (ordered s) channel_id payload = unreliable-Stays p _ _

  pub keepalive-Stays :
      (interval : Option ℕ) (p : Peer float) (time elapsed : ℕ)
      → Stays p (keepalive interval p time elapsed)
  unfolding enqueue_ping_command
  keepalive-Stays none p time elapsed = Stays-refl p
  keepalive-Stays (some interval) p time elapsed =
      either _ (enqueue_command_peer-Stays p _) (Stays-refl p)
    where
      either : {a b : Peer float} (t : Bool) → Stays p a → Stays p b → Stays p (if t then a else b)
      either true x y = x
      either false x y = y

  pub handle_pmtu-Stays :
      (p : Peer float) (time token : ℕ) (fill : ℕ → List ℕ)
      → Every (Stays p) (handle_pmtu p time token fill)
  unfolding handle_pmtu
  handle_pmtu-Stays p time token fill = elim (Option-cases (rto p.acknowledge_handler.congestion)) [
    | inl overflows ↦ rw (handle_pmtu, overflows) tt
    | inr (timeout, e) ↦
        let r = discover p.config p.pmtu time timeout token fill in
        elim (Option-cases r.0) [
          | inl no_probe ↦ rw (handle_pmtu, e, no_probe) (same-Stays refl refl refl refl refl)
          | inr (probe, sent) ↦
              rw (handle_pmtu, e, sent)
                (Stays-trans
                  (same-Stays {p = p} {q = record p { pmtu = r.1 }} refl refl refl refl refl)
                  (enqueue_command_peer-Stays _ probe))
        ]
  ]
