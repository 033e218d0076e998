-- ===== src/Packet.antt =====
-- crates/bitfold-protocol/src/packet.rs: what the user sends and receives, with its guarantees, and
-- the packets that a command yields. A socket address is a number.
use bitfold.Prelude.{ℕ, List, [], ◌∷◌, Option, none, ◌==◌, if◌then◌else◌}
use bitfold.Core.Error.{
  decoding_error, packet_type, ordering_guarantee, delivery_guarantee, Outcome, done, failed,
}

pub data DeliveryGuarantee : Type 0 where
  unreliable reliable : DeliveryGuarantee

-- `unordered` is the `None` of the source.
pub data OrderingGuarantee : Type 0 where
  unordered : OrderingGuarantee
  sequenced ordered : (stream_id : Option ℕ) → OrderingGuarantee
  unsequenced : OrderingGuarantee

pub data PacketType : Type 0 where
  packet fragment heartbeat : PacketType

unfoldable pub delivery_to_u8 : DeliveryGuarantee → ℕ
delivery_to_u8 unreliable = 0
delivery_to_u8 reliable = 1

unfoldable pub delivery_try_from : ℕ → Outcome DeliveryGuarantee
delivery_try_from value =
    if value == 0
    then done unreliable
    else if value == 1
    then done reliable
    else failed (decoding_error delivery_guarantee)

unfoldable pub ordering_to_u8 : OrderingGuarantee → ℕ
ordering_to_u8 unordered = 0
ordering_to_u8 (sequenced _) = 1
ordering_to_u8 (ordered _) = 2
ordering_to_u8 unsequenced = 3

unfoldable pub ordering_try_from : ℕ → Outcome OrderingGuarantee
ordering_try_from value =
    if value == 0
    then done unordered
    else if value == 1
    then done (sequenced none)
    else if value == 2
    then done (ordered none)
    else if value == 3
    then done unsequenced
    else failed (decoding_error ordering_guarantee)

unfoldable pub packet_type_to_u8 : PacketType → ℕ
packet_type_to_u8 packet = 0
packet_type_to_u8 fragment = 1
packet_type_to_u8 heartbeat = 2

unfoldable pub packet_type_try_from : ℕ → Outcome PacketType
packet_type_try_from value =
    if value == 0
    then done packet
    else if value == 1
    then done fragment
    else if value == 2
    then done heartbeat
    else failed (decoding_error packet_type)

pub record Packet : Type 0 where
  pub addr : ℕ
  pub payload : List ℕ
  pub delivery : DeliveryGuarantee
  pub ordering : OrderingGuarantee
  pub channel_id : ℕ

unfoldable pub new : ℕ → List ℕ → DeliveryGuarantee → OrderingGuarantee → ℕ → Packet
new addr payload delivery ordering channel_id = record {
  addr = addr;
  payload = payload;
  delivery = delivery;
  ordering = ordering;
  channel_id = channel_id;
}

unfoldable pub unreliable_packet : ℕ → List ℕ → Packet
unreliable_packet addr payload = record {
  addr = addr;
  payload = payload;
  delivery = unreliable;
  ordering = unordered;
  channel_id = 0;
}

unfoldable pub unreliable_sequenced : ℕ → List ℕ → Option ℕ → Packet
unreliable_sequenced addr payload stream_id = record {
  addr = addr;
  payload = payload;
  delivery = unreliable;
  ordering = sequenced stream_id;
  channel_id = 0;
}

unfoldable pub unsequenced_packet : ℕ → List ℕ → Packet
unsequenced_packet addr payload = record {
  addr = addr;
  payload = payload;
  delivery = unreliable;
  ordering = unsequenced;
  channel_id = 0;
}

unfoldable pub reliable_unordered : ℕ → List ℕ → Packet
reliable_unordered addr payload = record {
  addr = addr;
  payload = payload;
  delivery = reliable;
  ordering = unordered;
  channel_id = 0;
}

unfoldable pub reliable_ordered : ℕ → List ℕ → Option ℕ → Packet
reliable_ordered addr payload stream_id = record {
  addr = addr;
  payload = payload;
  delivery = reliable;
  ordering = ordered stream_id;
  channel_id = 0;
}

unfoldable pub reliable_sequenced : ℕ → List ℕ → Option ℕ → Packet
reliable_sequenced addr payload stream_id = record {
  addr = addr;
  payload = payload;
  delivery = reliable;
  ordering = sequenced stream_id;
  channel_id = 0;
}

unfoldable pub unreliable_on_channel : ℕ → List ℕ → ℕ → Packet
unreliable_on_channel addr payload channel_id = record {
  addr = addr;
  payload = payload;
  delivery = unreliable;
  ordering = unordered;
  channel_id = channel_id;
}

unfoldable pub reliable_on_channel : ℕ → List ℕ → ℕ → Packet
reliable_on_channel addr payload channel_id = record {
  addr = addr;
  payload = payload;
  delivery = reliable;
  ordering = unordered;
  channel_id = channel_id;
}

-- `IncomingPackets`, with the `ZeroOrMore` inside it.
pub data IncomingPackets : Type 0 where
  zero_packets : IncomingPackets
  one_packet : Packet → PacketType → IncomingPackets
  many_packets : List (Packet × PacketType) → IncomingPackets

-- The items that the iterator gives, in order.
unfoldable pub into_iter : IncomingPackets → List (Packet × PacketType)
into_iter zero_packets = []
into_iter (one_packet p t) = (p, t) ∷ []
into_iter (many_packets ps) = ps
