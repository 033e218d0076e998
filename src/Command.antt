-- ===== src/Command.antt =====
-- crates/bitfold-protocol/src/command.rs: the protocol's commands and the packets that carry them.
use bitfold.Prelude.{
  ℕ, ◌<◌, ◌^◌, Bool, true, false, List, [], ◌∷◌, ◌++◌, Option, none, some, length, ◌==◌,
}
use bitfold.Core.Shared.{SharedBytes, IsValid}

-- The fields of each command, in the order of the source.
pub data ProtocolCommand : Type 0 where
  send_reliable :
      (channel_id sequence : ℕ) (ordered : Bool) (payload : SharedBytes) → ProtocolCommand
  send_unreliable : (channel_id : ℕ) (payload : SharedBytes) → ProtocolCommand
  send_unreliable_sequenced : (channel_id sequence : ℕ) (payload : SharedBytes) → ProtocolCommand
  send_unsequenced : (channel_id unsequenced_group : ℕ) (payload : SharedBytes) → ProtocolCommand
  send_fragment :
      (channel_id sequence : ℕ) (ordered : Bool) (fragment_id fragment_count : ℕ)
      (payload : SharedBytes)
      → ProtocolCommand
  send_unreliable_fragment :
      (channel_id sequence fragment_id fragment_count : ℕ) (payload : SharedBytes) → ProtocolCommand
  acknowledge : (sequence received_mask : ℕ) (sent_time : Option ℕ) → ProtocolCommand
  ping : (timestamp : ℕ) → ProtocolCommand
  pong : (timestamp : ℕ) → ProtocolCommand
  connect : (channels mtu protocol_version outgoing_session_id connect_id : ℕ) → ProtocolCommand
  verify_connect :
      (peer_id channels mtu incoming_session_id outgoing_session_id window_size : ℕ)
      → ProtocolCommand
  disconnect : (reason : ℕ) → ProtocolCommand
  bandwidth_limit : (incoming outgoing : ℕ) → ProtocolCommand
  throttle_configure : (interval acceleration deceleration : ℕ) → ProtocolCommand
  pmtu_probe : (size token : ℕ) (payload : SharedBytes) → ProtocolCommand
  pmtu_reply : (size token : ℕ) → ProtocolCommand

unfoldable pub command_type : ProtocolCommand → ℕ
command_type (send_reliable _ _ _ _) = 1
command_type (send_unreliable _ _) = 2
command_type (send_unreliable_sequenced _ _ _) = 3
command_type (send_unsequenced _ _ _) = 4
command_type (send_fragment _ _ _ _ _ _) = 5
command_type (send_unreliable_fragment _ _ _ _ _) = 6
command_type (acknowledge _ _ _) = 7
command_type (ping _) = 8
command_type (pong _) = 9
command_type (connect _ _ _ _ _) = 10
command_type (verify_connect _ _ _ _ _ _) = 11
command_type (disconnect _) = 12
command_type (bandwidth_limit _ _) = 13
command_type (throttle_configure _ _ _) = 14
command_type (pmtu_probe _ _ _) = 15
command_type (pmtu_reply _ _) = 16

unfoldable pub is_reliable : ProtocolCommand → Bool
is_reliable (send_reliable _ _ _ _) = true
is_reliable (send_fragment _ _ _ _ _ _) = true
is_reliable (connect _ _ _ _ _) = true
is_reliable (verify_connect _ _ _ _ _ _) = true
is_reliable (disconnect _) = true
is_reliable _ = false

unfoldable pub channel_id : ProtocolCommand → Option ℕ
channel_id (send_reliable c _ _ _) = some c
channel_id (send_unreliable c _) = some c
channel_id (send_unreliable_sequenced c _ _) = some c
channel_id (send_unsequenced c _ _) = some c
channel_id (send_fragment c _ _ _ _ _) = some c
channel_id (send_unreliable_fragment c _ _ _ _) = some c
channel_id _ = none

-- `timestamp`, the instant at which the packet was made, is read by no modelled code.
pub record CommandPacket : Type 0 where
  pub commands : List ProtocolCommand

unfoldable pub new_packet : CommandPacket
new_packet = record { commands = [] }

unfoldable pub single : ProtocolCommand → CommandPacket
single c = record { commands = c ∷ [] }

unfoldable pub add_command : CommandPacket → ProtocolCommand → CommandPacket
add_command p c = record { commands = p.commands ++ c ∷ [] }

unfoldable pub packet_len : CommandPacket → ℕ
packet_len p = length p.commands

unfoldable pub packet_is_empty : CommandPacket → Bool
packet_is_empty p = length p.commands == 0

-- A view that is valid, of a length that a `u16` holds.
pub record Carries (b : SharedBytes) : Type 0 where
  pub view : IsValid b
  pub short : b.len < 2 ^ 16

abbrev FitsTime : Option ℕ → Type 0
FitsTime none = Unit
FitsTime (some t) = t < 2 ^ 32

-- Every field lies in the range of its type, and the payload's length in that of `u16`.
abbrev pub Fits : ProtocolCommand → Type 0
Fits (send_reliable c s o d) = (c < 2 ^ 8) × (s < 2 ^ 16) × Carries d
Fits (send_unreliable c d) = (c < 2 ^ 8) × Carries d
Fits (send_unreliable_sequenced c s d) = (c < 2 ^ 8) × (s < 2 ^ 16) × Carries d
Fits (send_unsequenced c g d) = (c < 2 ^ 8) × (g < 2 ^ 16) × Carries d
Fits (send_fragment c s o i n d) =
    (c < 2 ^ 8) × (s < 2 ^ 16) × (i < 2 ^ 8) × (n < 2 ^ 8) × Carries d
Fits (send_unreliable_fragment c s i n d) =
    (c < 2 ^ 8) × (s < 2 ^ 16) × (i < 2 ^ 8) × (n < 2 ^ 8) × Carries d
Fits (acknowledge s m t) = (s < 2 ^ 16) × (m < 2 ^ 32) × FitsTime t
Fits (ping t) = t < 2 ^ 32
Fits (pong t) = t < 2 ^ 32
Fits (connect c m v o i) = (c < 2 ^ 8) × (m < 2 ^ 16) × (v < 2 ^ 16) × (o < 2 ^ 16) × (i < 2 ^ 32)
Fits (verify_connect p c m i o w) =
    (p < 2 ^ 16) × (c < 2 ^ 8) × (m < 2 ^ 16) × (i < 2 ^ 16) × (o < 2 ^ 16) × (w < 2 ^ 32)
Fits (disconnect r) = r < 2 ^ 32
Fits (bandwidth_limit i o) = (i < 2 ^ 32) × (o < 2 ^ 32)
Fits (throttle_configure i a d) = (i < 2 ^ 32) × (a < 2 ^ 32) × (d < 2 ^ 32)
Fits (pmtu_probe s t d) = (s < 2 ^ 16) × (t < 2 ^ 32) × Carries d
Fits (pmtu_reply s t) = (s < 2 ^ 16) × (t < 2 ^ 32)
