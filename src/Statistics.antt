-- ===== src/Statistics.antt =====
-- crates/bitfold-peer/src/statistics.rs: the counters of a peer. They are `u64` and count packets and
-- bytes; their overflow is not modelled.
use bitfold.Prelude.{ℕ, ◌==◌, if◌then◌else◌}
use bitfold.Core.Float.{Float}

pub record PeerStatistics : Type 0 where
  pub packets_sent : ℕ
  pub packets_received : ℕ
  pub packets_lost : ℕ
  pub bytes_sent : ℕ
  pub bytes_received : ℕ

-- `PeerStatistics::default()`
abbrev pub empty_statistics : PeerStatistics
empty_statistics = record {
  packets_sent = 0;
  packets_received = 0;
  packets_lost = 0;
  bytes_sent = 0;
  bytes_received = 0;
}

unfoldable pub packet_loss_rate : (float : Float) → PeerStatistics → float.F32
packet_loss_rate float s =
    if s.packets_sent == 0
    then float.literal 0 1
    else float.div (float.from_nat s.packets_lost) (float.from_nat s.packets_sent)

unfoldable pub reset : PeerStatistics → PeerStatistics
reset s = empty_statistics
