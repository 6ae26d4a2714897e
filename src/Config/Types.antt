-- ===== src/Config/Types.antt =====
-- The structs and limits of include/config.h. An `int` is an integer; the program only counts
-- servers up from 0, so that their count is a number. A text is what stands before the NUL.
use net_chunk.Base.{ℕ, Bool, List}
use net_chunk.Base.Int.{ℤ}

abbrev pub max_servers : ℕ
max_servers = 32

abbrev pub max_host_len : ℕ
max_host_len = 256

abbrev pub max_user_len : ℕ
max_user_len = 64

abbrev pub max_pass_len : ℕ
max_pass_len = 128

abbrev pub min_chunk_size : ℕ
min_chunk_size = 1048576

abbrev pub max_chunk_size : ℕ
max_chunk_size = 67108864

abbrev pub max_replication_factor : ℕ
max_replication_factor = 10

-- `netchunk_log_level_t`
pub data LogLevel : Type 0 where
  error warn info debug : LogLevel

-- `netchunk_server_status_t`
pub data ServerStatus : Type 0 where
  unknown available unavailable degraded : ServerStatus

-- `netchunk_server_t`, without the `double` of the last latency.
pub record Server : Type 0 where
  pub id : List ℕ
  pub host : List ℕ
  pub port : ℕ
  pub username : List ℕ
  pub password : List ℕ
  pub base_path : List ℕ
  pub use_ssl : Bool
  pub passive_mode : Bool
  pub priority : ℤ
  pub status : ServerStatus
  pub last_health_check : ℕ
  pub bytes_available : ℕ
  pub bytes_used : ℕ

-- `netchunk_config_t`; `servers` is the whole array.
pub record Config : Type 0 where
  pub chunk_size : ℕ
  pub replication_factor : ℤ
  pub max_concurrent_operations : ℤ
  pub ftp_timeout : ℤ
  pub max_retry_attempts : ℤ
  pub local_storage_path : List ℕ
  pub log_level : LogLevel
  pub log_file : List ℕ
  pub health_monitoring_enabled : Bool
  pub health_check_interval : ℤ
  pub servers : List Server
  pub server_count : ℕ
  pub auto_repair_enabled : Bool
  pub max_repair_attempts : ℤ
  pub repair_delay : ℤ
  pub rebalancing_enabled : Bool
  pub storage_alert_threshold : ℤ
  pub latency_alert_threshold : ℤ
  pub performance_logging : Bool
  pub monitoring_data_path : List ℕ
  pub verify_ssl_certificates : Bool
  pub always_verify_integrity : Bool
  pub encrypt_chunks : Bool
