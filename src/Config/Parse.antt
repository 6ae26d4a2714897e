-- ===== src/Config/Parse.antt =====
-- The configuration file of src/config.c: `parse_section`, a function for each section.
use net_chunk.Base.{
  ℕ, zero, suc, ◌-◌, some, List, [], ◌∷◌, leb, if◌then◌else◌, take, drop, ErrorCode, success,
  config_parse,
}
use net_chunk.Base.Int.{ℤ, pos, negsuc, ◌-ℤ◌}
use net_chunk.Libc.Text.{is_text}
use net_chunk.Chunker.Types.{max_path_len}
use net_chunk.Config.Types.{Server, Config, max_servers, max_host_len, max_user_len, max_pass_len}
use net_chunk.Config.Names.{log_level_from_string}
use net_chunk.Config.Values.{parse_bool, parse_int, parse_size, to_int, to_uint16}

-- `strncpy` into a zeroed array of `n` characters.
abbrev pub copy_text : ℕ → List ℕ → List ℕ
copy_text n value = take (n - 1) value

unfoldable pub parse_general : Config → List ℕ → List ℕ → Config
parse_general config key value =
    if is_text key "chunk_size"
    then record config { chunk_size = parse_size value }
    else if is_text key "replication_factor"
    then record config { replication_factor = to_int (parse_int value) }
    else if is_text key "max_concurrent_operations"
    then record config { max_concurrent_operations = to_int (parse_int value) }
    else if is_text key "ftp_timeout"
    then record config { ftp_timeout = to_int (parse_int value) }
    else if is_text key "local_storage_path"
    then record config { local_storage_path = copy_text max_path_len value }
    else if is_text key "log_level"
    then record config { log_level = log_level_from_string (some value) }
    else if is_text key "log_file"
    then record config { log_file = copy_text max_path_len value }
    else if is_text key "health_monitoring_enabled"
    then record config { health_monitoring_enabled = parse_bool value }
    else if is_text key "health_check_interval"
    then record config { health_check_interval = to_int (parse_int value) }
    else config

-- A key of one server.
unfoldable pub parse_server : Server → List ℕ → List ℕ → Server
parse_server server key value =
    if is_text key "host"
    then record server { host = copy_text max_host_len value }
    else if is_text key "port"
    then record server { port = to_uint16 (parse_int value) }
    else if is_text key "username"
    then record server { username = copy_text max_user_len value }
    else if is_text key "password"
    then record server { password = copy_text max_pass_len value }
    else if is_text key "base_path"
    then record server { base_path = copy_text max_path_len value }
    else if is_text key "use_ssl"
    then record server { use_ssl = parse_bool value }
    else if is_text key "passive_mode"
    then record server { passive_mode = parse_bool value }
    else if is_text key "priority"
    then record server { priority = to_int (parse_int value) }
    else server

-- The server at the index changed, in the array.
unfoldable pub update_at : List Server → ℕ → List ℕ → List ℕ → List Server
update_at [] i key value = []
update_at (s ∷ ss) zero key value = parse_server s key value ∷ ss
update_at (s ∷ ss) (suc i) key value = s ∷ update_at ss i key value

-- The server section with this index from 0.
unfoldable pub parse_server_at : Config → ℤ → List ℕ → List ℕ → ErrorCode × Config
parse_server_at config (negsuc n) key value = (config_parse, config)
parse_server_at config (pos n) key value = if leb max_servers n then (config_parse, config) else (
  success,
  record config {
    server_count = if leb config.server_count n then suc n else config.server_count;
    servers = update_at config.servers n key value;
  },
)

unfoldable pub parse_repair : Config → List ℕ → List ℕ → Config
parse_repair config key value =
    if is_text key "auto_repair_enabled"
    then record config { auto_repair_enabled = parse_bool value }
    else if is_text key "max_repair_attempts"
    then record config { max_repair_attempts = to_int (parse_int value) }
    else if is_text key "repair_delay"
    then record config { repair_delay = to_int (parse_int value) }
    else if is_text key "rebalancing_enabled"
    then record config { rebalancing_enabled = parse_bool value }
    else config

unfoldable pub parse_monitoring : Config → List ℕ → List ℕ → Config
parse_monitoring config key value =
    if is_text key "storage_alert_threshold"
    then record config { storage_alert_threshold = to_int (parse_int value) }
    else if is_text key "latency_alert_threshold"
    then record config { latency_alert_threshold = to_int (parse_int value) }
    else if is_text key "performance_logging"
    then record config { performance_logging = parse_bool value }
    else if is_text key "monitoring_data_path"
    then record config { monitoring_data_path = copy_text max_path_len value }
    else config

unfoldable pub parse_security : Config → List ℕ → List ℕ → Config
parse_security config key value =
    if is_text key "verify_ssl_certificates"
    then record config { verify_ssl_certificates = parse_bool value }
    else if is_text key "always_verify_integrity"
    then record config { always_verify_integrity = parse_bool value }
    else if is_text key "encrypt_chunks"
    then record config { encrypt_chunks = parse_bool value }
    else config

unfoldable pub parse_section : Config → List ℕ → List ℕ → List ℕ → ErrorCode × Config
parse_section config section key value =
    if is_text section "general"
    then (success, parse_general config key value)
    else if is_text (take 7 section) "server_"
    then parse_server_at config (to_int (parse_int (drop 7 section)) -ℤ pos 1) key value
    else if is_text section "repair"
    then (success, parse_repair config key value)
    else if is_text section "monitoring"
    then (success, parse_monitoring config key value)
    else if is_text section "security"
    then (success, parse_security config key value)
    else (success, config)
