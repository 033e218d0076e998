-- ===== src/Acknowledgment.antt =====
-- crates/bitfold-protocol/src/acknowledgment.rs: the packets that were sent and are not acknowledged,
-- and those that were received.
pub mod Bitfield
pub mod Acked
pub mod Dropped
use bitfold.Prelude.{
  ℕ, zero, suc, ◌+◌, ◌-◌, ◌*◌, ◌/◌, ◌%◌, ◌^◌, Bool, true, false, List, [], ◌∷◌, Option, none, some,
  length, ltb, ◌==◌, if◌then◌else◌,
}
use bitfold.Prelude.Map.{lookup, insert, remove}
use bitfold.Core.Float.{Float}
use bitfold.Core.Time.{duration_since}
use bitfold.Core.Word.{or_bit}
use bitfold.Sequence.Order.{sequence_greater_than, sequence_less_than, next, wrapping_sub}
use bitfold.Sequence.Buffer.{SequenceBuffer, exists, with_capacity, insert as insert_entry}
use bitfold.Packet.{PacketType, OrderingGuarantee}
use bitfold.Congestion.{CongestionControl, update_rtt, record_sent, record_loss}

pub record SentPacket : Type 0 where
  pub packet_type : PacketType
  pub payload : List ℕ
  pub ordering_guarantee : OrderingGuarantee
  pub item_identifier : Option ℕ
  pub sent_time : ℕ

pub data ReceivedPacket : Type 0 where
  received_packet : ReceivedPacket

-- `sent_packets` is a `HashMap`.
pub record AcknowledgmentHandler (float : Float) : Type 0 where
  pub sequence_number : ℕ
  pub remote_ack_sequence_num : ℕ
  pub sent_packets : List (ℕ × SentPacket)
  pub received_packets : SequenceBuffer ReceivedPacket
  pub congestion : CongestionControl float

abbrev pub redundant_packet_acks_size : ℕ
redundant_packet_acks_size = 32

module _ {float : Float} where
  unfoldable pub with_congestion : CongestionControl float → AcknowledgmentHandler float
  with_congestion congestion = record {
    sequence_number = 0;
    remote_ack_sequence_num = 65535;
    sent_packets = [];
    received_packets = with_capacity received_packet (redundant_packet_acks_size + 1);
    congestion = congestion;
  }

  unfoldable pub packets_in_flight : AcknowledgmentHandler float → ℕ
  packets_in_flight h = length h.sent_packets % 2 ^ 16

  unfoldable pub remote_sequence_num : AcknowledgmentHandler float → ℕ
  remote_sequence_num h = wrapping_sub h.received_packets.sequence_num 1

  -- The loop of `ack_bitfield`, by the turns left.
  unfoldable pub bitfield_from :
      (turns i recent ack_bitfield mask : ℕ) → AcknowledgmentHandler float → ℕ
  bitfield_from zero i recent ack_bitfield mask h = ack_bitfield
  bitfield_from (suc turns) i recent ack_bitfield mask h =
      bitfield_from turns (suc i) recent
        (if exists h.received_packets (wrapping_sub recent i)
          then or_bit ack_bitfield mask
          else ack_bitfield)
        (mask * 2 % 2 ^ 32) h

  unfoldable pub ack_bitfield : AcknowledgmentHandler float → ℕ
  ack_bitfield h = bitfield_from redundant_packet_acks_size 1 (remote_sequence_num h) 0 1 h

  -- A sent packet that is acknowledged gives a sample of the round-trip time.
  unfoldable pub acknowledged : ℕ → ℕ → AcknowledgmentHandler float → AcknowledgmentHandler float
  acknowledged sequence now h = elim (lookup sequence h.sent_packets) [
    | none ↦ h
    | some sent_packet ↦ record h {
      sent_packets = remove sequence h.sent_packets;
      congestion = update_rtt h.congestion (duration_since now sent_packet.sent_time);
    }
  ]

  -- The loop over the bits of `remote_ack_field`, by the turns left.
  unfoldable pub acknowledged_bits :
      (turns i remote_ack_seq remote_ack_field now : ℕ)
      → AcknowledgmentHandler float
      → AcknowledgmentHandler float
  acknowledged_bits zero i remote_ack_seq remote_ack_field now h = h
  acknowledged_bits (suc turns) i remote_ack_seq remote_ack_field now h =
      acknowledged_bits turns (suc i) remote_ack_seq (remote_ack_field / 2) now (
        if remote_ack_field % 2 == 1 then acknowledged (wrapping_sub remote_ack_seq i) now h else h)

  -- The first part of `process_incoming`, before the acknowledgments.
  unfoldable pub arrived : AcknowledgmentHandler float → ℕ → ℕ → AcknowledgmentHandler float
  arrived h remote_seq_num remote_ack_seq = record h {
    remote_ack_sequence_num =
        (if sequence_greater_than remote_ack_seq h.remote_ack_sequence_num
          then remote_ack_seq
          else h.remote_ack_sequence_num);
    received_packets =
        (insert_entry received_packet h.received_packets remote_seq_num received_packet).1;
  }

  unfoldable pub process_incoming :
      AcknowledgmentHandler float
      → (remote_seq_num remote_ack_seq remote_ack_field now : ℕ) → AcknowledgmentHandler float
  process_incoming h remote_seq_num remote_ack_seq remote_ack_field now =
      acknowledged_bits redundant_packet_acks_size 1 remote_ack_seq remote_ack_field now
        (acknowledged remote_ack_seq now (arrived h remote_seq_num remote_ack_seq))

  -- `None` is the overflow of the counter of sent packets.
  unfoldable pub process_outgoing :
      AcknowledgmentHandler float
      → PacketType
      → List ℕ
      → OrderingGuarantee
      → Option ℕ
      → ℕ
      → Option (AcknowledgmentHandler float)
  process_outgoing h packet_type payload ordering_guarantee item_identifier now =
      elim (record_sent h.congestion) [
        | none ↦ none
        | some congestion ↦ some (record h {
          sent_packets =
              insert h.sequence_number
                (record {
                  packet_type = packet_type;
                  payload = payload;
                  ordering_guarantee = ordering_guarantee;
                  item_identifier = item_identifier;
                  sent_time = now;
                })
                h.sent_packets;
          congestion = congestion;
          sequence_number = next h.sequence_number;
        })
      ]

-- The keys of a map, and a sort of them.
abbrev pub keys : {V : Type 0} → List (ℕ × V) → List ℕ
keys [] = []
keys ((k, v) ∷ m) = k ∷ keys m

abbrev pub sorted_into : ℕ → List ℕ → List ℕ
sorted_into k [] = k ∷ []
sorted_into k (j ∷ js) = let rest = sorted_into k js in if ltb j k then j ∷ rest else k ∷ j ∷ js

abbrev pub sort_unstable : List ℕ → List ℕ
sort_unstable [] = []
sort_unstable (k ∷ ks) = sorted_into k (sort_unstable ks)

-- The filter of `dropped_packets`.
unfoldable pub is_dropped : ℕ → ℕ → Bool
is_dropped remote_ack_sequence s =
    if sequence_less_than s remote_ack_sequence
    then ltb redundant_packet_acks_size (wrapping_sub remote_ack_sequence s)
    else false

abbrev pub taken_out :
    Option SentPacket
    → List SentPacket × List (ℕ × SentPacket)
    → List SentPacket × List (ℕ × SentPacket)
taken_out none r = r
taken_out (some p) (ps, m) = (p ∷ ps, m)

-- `filter` and `flat_map` over the sorted numbers.
unfoldable pub take_dropped :
    ℕ → List ℕ → List (ℕ × SentPacket) → List SentPacket × List (ℕ × SentPacket)
take_dropped remote_ack_sequence [] sent = ([], sent)
take_dropped remote_ack_sequence (s ∷ ss) sent =
    let skipped = take_dropped remote_ack_sequence ss sent in
    let removed = take_dropped remote_ack_sequence ss (remove s sent) in
    if is_dropped remote_ack_sequence s then taken_out (lookup s sent) removed else skipped

module _ {float : Float} where
  unfoldable pub record_losses :
      List SentPacket → CongestionControl float → Option (CongestionControl float)
  record_losses [] c = some c
  record_losses (p ∷ ps) c = elim (record_loss c) [ none ↦ none | some c' ↦ record_losses ps c' ]

  -- `None` is the overflow of the counter of lost packets.
  unfoldable pub dropped_packets :
      AcknowledgmentHandler float → Option (List SentPacket × AcknowledgmentHandler float)
  dropped_packets h =
      let (dropped, sent) =
        take_dropped h.remote_ack_sequence_num (sort_unstable (keys h.sent_packets))
          h.sent_packets in
      elim (record_losses dropped h.congestion) [
        | none ↦ none
        | some congestion ↦
            some (dropped, record h { sent_packets = sent; congestion = congestion })
      ]
