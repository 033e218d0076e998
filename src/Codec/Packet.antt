-- ===== src/Codec/Packet.antt =====
-- Packets of commands: both encoders agree, and the decoder undoes them and refuses what is cut.
pub mod Encode
pub mod Decode
pub mod Truncated
use bitfold.Prelude.{ℕ, ◌<◌, ◌^◌, List, [], ◌∷◌, ◌++◌, length}
use bitfold.Command.{ProtocolCommand, Fits, CommandPacket}
use bitfold.Codec.Wire.{wire, be16}

-- Each command behind its length.
unfoldable pub framed : List ProtocolCommand → List ℕ
framed [] = []
framed (c ∷ cs) = be16 (length (wire c)) (wire c ++ framed cs)

-- The fields of each command are in range, and so is the length of its bytes.
abbrev pub AllFit : List ProtocolCommand → Type 0
AllFit [] = Unit
AllFit (c ∷ cs) = Fits c × (length (wire c) < 2 ^ 16) × AllFit cs

-- The number of the commands is in range too.
pub record PacketFits (p : CommandPacket) : Type 0 where
  pub count : length p.commands < 2 ^ 8
  pub each : AllFit p.commands
