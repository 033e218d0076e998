-- ===== src/Tests/Acknowledgments.antt =====
-- Acknowledgments and the throttle at concrete states.
use bitfold.Prelude.{
  ℕ, ◌+◌, ◌≡◌, not, refl, Bool, true, List, [], ◌∷◌, none, some, arith, ltb, length, if◌then◌else◌,
  replicate,
}
use bitfold.Core.Time.{duration_since}
use bitfold.Sequence.Buffer.{exists, index}
use bitfold.Congestion.{CongestionControl, update_throttle}
use bitfold.Congestion.Bounds.{IsScaled, Updated, update_throttle-Updated}
use bitfold.Packet.{packet, unordered}
use bitfold.Acknowledgment.{
  AcknowledgmentHandler, SentPacket, received_packet, remote_sequence_num, ack_bitfield,
  bitfield_from, dropped_packets,
}
use bitfold.Acknowledgment.Dropped.{Drops, dropped_packets-Drops}
use bitfold.Tests.Floats.{thousandths}

abbrev congestion : CongestionControl thousandths
congestion = record {
  rtt = 50_000_000;
  rtt_variance = 25_000_000;
  rtt_alpha = 100;
  rtt_beta = 250;
  packets_lost = 3;
  packets_sent = 40;
  throttle = 0;
  min_throttle = 0;
  max_throttle = 1000;
  last_throttle_update = 0;
  throttle_interval = 1_000_000_000;
  use_advanced_throttling = true;
  throttle_scale = 32;
  packet_throttle = 31;
  throttle_acceleration = 2;
  throttle_deceleration = 2;
}

congestion-IsScaled : IsScaled congestion
congestion-IsScaled = omega arith

update_throttle-Updated_example :
    (b : Bool) × (c : CongestionControl thousandths) × (update_throttle congestion 2_000_000_000
      ≡ some (b, c))
    × Updated congestion c
    × (b ≡ not (ltb (duration_since 2_000_000_000 0) 1_000_000_000))
    × (c.packets_sent ≡ (if b then 0 else 40))
    × (c.packets_lost ≡ (if b then 0 else 3))
update_throttle-Updated_example =
    update_throttle-Updated congestion 2_000_000_000 congestion-IsScaled

abbrev sent : ℕ → SentPacket
sent k = record {
  packet_type = packet;
  payload = k ∷ [];
  ordering_guarantee = unordered;
  item_identifier = none;
  sent_time = 0;
}

-- It waits for the acknowledgment of 2, 5, 6 and 60.
abbrev sender : AcknowledgmentHandler thousandths
sender = record {
  sequence_number = 61;
  remote_ack_sequence_num = 50;
  sent_packets = (5, sent 5) ∷ (2, sent 2) ∷ (6, sent 6) ∷ (60, sent 60) ∷ [];
  received_packets = record { sequence_num = 0; entry_sequences = []; entries = [] };
  congestion = congestion;
}

-- It has received 4 and 6.
abbrev receiver : AcknowledgmentHandler thousandths
receiver = record {
  sequence_number = 0;
  remote_ack_sequence_num = 65535;
  sent_packets = [];
  received_packets = record {
    sequence_num = 7;
    entry_sequences = none ∷ none ∷ none ∷ none ∷ some 4 ∷ none ∷ some 6 ∷ [];
    entries = replicate 7 received_packet;
  };
  congestion = congestion;
}

-- The packet 4 lies two before the most recent one.
second_bit : ack_bitfield receiver ≡ 2
unfolding ack_bitfield bitfield_from remote_sequence_num exists index
second_bit = refl

dropped_packets-Drops_example :
    (dropped : List SentPacket) × (h : AcknowledgmentHandler thousandths) × (dropped_packets sender
      ≡ some (dropped, h))
    × Drops 50 sender.sent_packets h.sent_packets dropped
    × (h.congestion.packets_lost ≡ 3 + length dropped)
dropped_packets-Drops_example =
    dropped_packets-Drops sender (omega arith) (omega arith) (ground arith)
