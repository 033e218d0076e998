-- ===== src/Peer/Kept/Data.antt =====
-- The commands that carry data keep the state of the connection.
use bitfold.Prelude.{
  ℕ, refl, Bool, true, false, inl, inr, List, none, some, Option-cases, Bool-cases,
}
use bitfold.Core.Float.{Float}
use bitfold.Core.Shared.{SharedBytes, from_arc, from_vec}
use bitfold.Channel.{process_ordered}
use bitfold.Fragment.Buffer.{CommandFragmentBuffer, is_complete, reassemble}
use bitfold.Unsequenced.{is_duplicate}
use bitfold.Peer.{Peer, enqueue_ack_command}
use bitfold.Peer.Receive.{
  Processed, payload_of, channel_state, collected, process_acknowledge, deliver_ordered,
  process_send_reliable, process_send_unreliable_sequenced, process_send_unsequenced,
  deliver_reassembled, process_send_fragment, process_send_unreliable_fragment,
}
use bitfold.Peer.Kept.{
  Stays, Stays-refl, Stays-trans, same-Stays, enqueue_ack_command-Stays, incoming-Stays, Leaves,
}

module _ {float : Float} where
  pub Leaves-Stays :
      {p q : Peer float} (r : Processed float) → Stays p q → Leaves (Stays q) r → Leaves (Stays p) r
  Leaves-Stays none s h = tt
  Leaves-Stays (some (o, q')) s h = Stays-trans s h

  deliver_ordered-Stays :
      (p : Peer float) (channel_id sequence : ℕ) (d : SharedBytes)
      → Leaves (Stays p) (deliver_ordered p channel_id sequence d)
  unfolding deliver_ordered
  deliver_ordered-Stays p channel_id sequence d =
      elim (Option-cases
        (process_ordered (channel_state p channel_id) sequence (from_arc (payload_of d)))) [
          | inl stuck ↦ rw (deliver_ordered, stuck) tt
          | inr ((ready, c), e) ↦ rw (deliver_ordered, e) (same-Stays refl refl refl refl refl)
        ]

  pub process_acknowledge-Stays :
      (p : Peer float) (sequence received_mask time : ℕ)
      → Leaves (Stays p) (process_acknowledge p sequence received_mask time)
  unfolding process_acknowledge
  process_acknowledge-Stays p sequence received_mask time =
      incoming-Stays p sequence sequence received_mask time

  pub process_send_reliable-Stays :
      (p : Peer float) (channel_id sequence : ℕ) (is_ordered : Bool) (d : SharedBytes) (time : ℕ)
      → Leaves (Stays p) (process_send_reliable p channel_id sequence is_ordered d time)
  unfolding process_send_reliable
  process_send_reliable-Stays p channel_id sequence true d time =
      Leaves-Stays _
        (Stays-trans (incoming-Stays p sequence sequence 0 time) (enqueue_ack_command-Stays _ none))
        (deliver_ordered-Stays _ channel_id sequence d)
  process_send_reliable-Stays p channel_id sequence false d time =
      Stays-trans (incoming-Stays p sequence sequence 0 time) (enqueue_ack_command-Stays _ none)

  pub process_send_unreliable_sequenced-Stays :
      (p : Peer float) (channel_id sequence : ℕ) (d : SharedBytes)
      → Leaves (Stays p) (process_send_unreliable_sequenced p channel_id sequence d)
  unfolding process_send_unreliable_sequenced
  process_send_unreliable_sequenced-Stays p channel_id sequence d =
      same-Stays refl refl refl refl refl

  pub process_send_unsequenced-Stays :
      (p : Peer float) (channel_id group : ℕ) (d : SharedBytes)
      → Leaves (Stays p) (process_send_unsequenced p channel_id group d)
  unfolding process_send_unsequenced
  process_send_unsequenced-Stays p channel_id group d =
      elim (Bool-cases (is_duplicate p.unsequenced_state group)) [
        | inl duplicate ↦ rw (process_send_unsequenced, duplicate) (Stays-refl p)
        | inr fresh ↦ rw (process_send_unsequenced, fresh) (same-Stays refl refl refl refl refl)
      ]

  deliver_reassembled-Stays :
      (p : Peer float) (buffer : CommandFragmentBuffer) (sequence : ℕ) (payload : List ℕ)
      → Leaves (Stays p) (deliver_reassembled p buffer sequence payload)
  unfolding deliver_reassembled
  deliver_reassembled-Stays p buffer sequence payload =
      let acked = enqueue_ack_command-Stays p none in
      let q = enqueue_ack_command p none in
      elim (Bool-cases buffer.ordered) [
        | inr unordered ↦ rw (deliver_reassembled, unordered) acked
        | inl ordered ↦
            elim (Option-cases
              (process_ordered (channel_state q buffer.channel_id) sequence (from_vec payload))) [
                | inl stuck ↦ rw (deliver_reassembled, stuck, ordered) tt
                | inr ((ready, c), e) ↦
                    rw (deliver_reassembled, e, ordered)
                      (Stays-trans acked (same-Stays refl refl refl refl refl))
              ]
      ]

  pub process_send_fragment-Stays :
      (p : Peer float) (channel_id sequence : ℕ) (is_ordered : Bool)
      (fragment_id fragment_count : ℕ) (d : SharedBytes) (time : ℕ)
      → Leaves
          (Stays p)
          (process_send_fragment p channel_id sequence is_ordered fragment_id fragment_count d time)
  unfolding process_send_fragment
  process_send_fragment-Stays p channel_id sequence is_ordered fragment_id fragment_count d time =
      let b = collected p channel_id sequence is_ordered fragment_id fragment_count d time in
      let incoming = incoming-Stays p sequence sequence 0 time in
      elim (Bool-cases (is_complete b)) [
        | inr waits ↦
            rw (process_send_fragment, waits)
              (Stays-trans incoming (same-Stays refl refl refl refl refl))
        | inl complete ↦ elim (Option-cases (reassemble b)) [
          | inl fails ↦
              rw (process_send_fragment, complete, fails)
                (Stays-trans incoming (same-Stays refl refl refl refl refl))
          | inr (payload, e) ↦
              rw (process_send_fragment, complete, e)
                (Leaves-Stays _ (Stays-trans incoming (same-Stays refl refl refl refl refl))
                  (deliver_reassembled-Stays _ b sequence payload))
        ]
      ]

  pub process_send_unreliable_fragment-Stays :
      (p : Peer float) (channel_id sequence fragment_id fragment_count : ℕ) (d : SharedBytes)
      (time : ℕ)
      → Leaves
          (Stays p)
          (process_send_unreliable_fragment p channel_id sequence fragment_id fragment_count d time)
  unfolding process_send_unreliable_fragment
  process_send_unreliable_fragment-Stays p channel_id sequence fragment_id fragment_count d time =
      let b = collected p channel_id sequence false fragment_id fragment_count d time in
      elim (Bool-cases (is_complete b)) [
        | inr waits ↦
            rw (process_send_unreliable_fragment, waits) (same-Stays refl refl refl refl refl)
        | inl complete ↦ elim (Option-cases (reassemble b)) [
          | inl fails ↦
              rw (process_send_unreliable_fragment, complete, fails)
                (same-Stays refl refl refl refl refl)
          | inr (payload, e) ↦
              rw (process_send_unreliable_fragment, complete, e)
                (same-Stays refl refl refl refl refl)
        ]
      ]
