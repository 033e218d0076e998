-- ===== src/Core/Config.antt =====
-- crates/bitfold-core/src/config.rs: the options that the modelled code reads. Those that only the
-- sockets and the `f32` parameters of other parts read are left out.
use bitfold.Prelude.{ℕ, ◌*◌, Bool, true, false, Option, none}
use bitfold.Core.Time.{from_secs}

pub data CompressionAlgorithm : Type 0 where
  no_compression zlib lz4 : CompressionAlgorithm

pub record Config : Type 0 where
  pub idle_connection_timeout : ℕ
  pub heartbeat_interval : Option ℕ
  pub max_fragments : ℕ
  pub fragment_size : ℕ
  pub receive_buffer_max_size : ℕ
  pub max_packets_in_flight : ℕ
  pub max_unestablished_connections : ℕ
  pub channel_count : ℕ
  pub incoming_bandwidth_limit : ℕ
  pub outgoing_bandwidth_limit : ℕ
  pub use_checksums : Bool
  pub compression : CompressionAlgorithm
  pub compression_threshold : ℕ
  pub use_connection_handshake : Bool
  pub max_duplicate_peers : ℕ
  pub max_waiting_data : ℕ
  pub use_advanced_throttling : Bool
  pub throttle_scale : ℕ
  pub throttle_acceleration : ℕ
  pub throttle_deceleration : ℕ
  pub throttle_interval : ℕ
  pub use_window_flow_control : Bool
  pub initial_window_size : ℕ
  pub min_window_size : ℕ
  pub max_window_size : ℕ
  pub use_pmtu_discovery : Bool
  pub pmtu_min : ℕ
  pub pmtu_max : ℕ
  pub pmtu_interval_ms : ℕ
  pub pmtu_converge_threshold : ℕ

-- `Config::default()`
abbrev pub default_config : Config
default_config = record {
  idle_connection_timeout = from_secs 5;
  heartbeat_interval = none;
  max_fragments = 16;
  fragment_size = 1024;
  receive_buffer_max_size = 1452;
  max_packets_in_flight = 512;
  max_unestablished_connections = 50;
  channel_count = 1;
  incoming_bandwidth_limit = 2_097_152;
  outgoing_bandwidth_limit = 2_097_152;
  use_checksums = true;
  compression = no_compression;
  compression_threshold = 128;
  use_connection_handshake = true;
  max_duplicate_peers = 0;
  max_waiting_data = 32 * 1024 * 1024;
  use_advanced_throttling = false;
  throttle_scale = 32;
  throttle_acceleration = 2;
  throttle_deceleration = 2;
  throttle_interval = 5000;
  use_window_flow_control = false;
  initial_window_size = 512;
  min_window_size = 64;
  max_window_size = 4096;
  use_pmtu_discovery = true;
  pmtu_min = 576;
  pmtu_max = 1400;
  pmtu_interval_ms = 5000;
  pmtu_converge_threshold = 64;
}
