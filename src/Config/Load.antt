-- ===== src/Config/Load.antt =====
-- The reading of a configuration in src/config.c: `parse_ini_file`, `netchunk_config_init_defaults`,
-- `netchunk_config_validate`, `netchunk_config_load_file` and `netchunk_config_load`. The lines that
-- `fgets` returns are an argument, and so is what `strcpy` leaves of the loop's state and returns for a
-- section's name of 64 characters or more, which it writes past the end of the array.
use net_chunk.Base.{
  ℕ, Bool, true, false, ◌||◌, not, Option, none, some, List, [], ◌∷◌, ltb, leb, ◌==◌, if◌then◌else◌,
  length, take, drop, replicate, ErrorCode, success, file_not_found, config_parse,
  config_validation, insufficient_servers, failed, Result, ok, err,
}
use net_chunk.Base.Int.{ℤ, pos, ltb_ℤ}
use net_chunk.Libc.Text.{codes, split_at_char}
use net_chunk.Chunker.Types.{max_path_len}
use net_chunk.Config.Types.{
  Server, Config, unknown, info, max_servers, min_chunk_size, max_chunk_size,
  max_replication_factor,
}
use net_chunk.Config.Values.{trim_whitespace}
use net_chunk.Config.Path.{expand_path}
use net_chunk.Config.Parse.{parse_section}

-- The state of the loop over the lines: the configuration and the current section.
pub record Parser : Type 0 where
  pub config : Config
  pub section : List ℕ

-- `key=value`, split at its `=`.
abbrev pub set_key : Parser → Option (List ℕ × List ℕ) → ErrorCode × Parser
set_key p none = (config_parse, p)
set_key p (some (key, value)) =
    let (e, config) =
      parse_section p.config p.section (trim_whitespace key) (trim_whitespace value) in
    (e, record p { config = config })

module _ (overrun : List ℕ → Parser → ErrorCode × Parser) where
  -- `[name]`, split at its `]`.
  abbrev pub enter_section : Parser → Option (List ℕ × List ℕ) → ErrorCode × Parser
  enter_section p none = (config_parse, p)
  enter_section p (some (header, behind)) =
      if leb 64 (length (drop 1 header))
      then overrun (drop 1 header) p
      else (success, record p { section = drop 1 header })

  -- A trimmed line.
  unfoldable pub read_line : Parser → List ℕ → ErrorCode × Parser
  read_line p [] = (success, p)
  read_line p (c ∷ line) =
      if (c == b'#') || (c == b';')
      then (success, p)
      else if c == b'['
      then enter_section p (split_at_char b']' (c ∷ line))
      else set_key p (split_at_char b'=' (c ∷ line))

  -- The loop: an error ends it.
  unfoldable pub read_lines : Parser → List (List ℕ) → ErrorCode × Parser
  read_lines p [] = (success, p)
  read_lines p (line ∷ lines) =
      let (e, p') = read_line p (trim_whitespace line) in
      if failed e then (e, p') else read_lines p' lines

  unfoldable pub parse_ini_file : Config → List (List ℕ) → ErrorCode × Config
  parse_ini_file config lines =
      let (e, p) = read_lines (record { config = config; section = [] }) lines in (e, p.config)

abbrev pub no_server : Server
no_server = record {
  id = [];
  host = [];
  port = 0;
  username = [];
  password = [];
  base_path = [];
  use_ssl = false;
  passive_mode = false;
  priority = pos 0;
  status = unknown;
  last_health_check = 0;
  bytes_available = 0;
  bytes_used = 0;
}

-- What `memset` leaves at 0 is not set again: `max_retry_attempts` and the servers.
unfoldable pub init_defaults : Config
init_defaults = record {
  chunk_size = 4194304;
  replication_factor = pos 3;
  max_concurrent_operations = pos 4;
  ftp_timeout = pos 30;
  max_retry_attempts = pos 0;
  local_storage_path = codes "~/.netchunk/data";
  log_level = info;
  log_file = codes "~/.netchunk/netchunk.log";
  health_monitoring_enabled = true;
  health_check_interval = pos 300;
  servers = replicate max_servers no_server;
  server_count = 0;
  auto_repair_enabled = true;
  max_repair_attempts = pos 3;
  repair_delay = pos 10;
  rebalancing_enabled = true;
  storage_alert_threshold = pos 85;
  latency_alert_threshold = pos 1000;
  performance_logging = false;
  monitoring_data_path = codes "~/.netchunk/monitoring";
  verify_ssl_certificates = true;
  always_verify_integrity = true;
  encrypt_chunks = false;
}

-- The loop over the servers: whether each one passes its checks.
unfoldable pub are_servers_valid : List Server → Bool
are_servers_valid [] = true
are_servers_valid (s ∷ ss) =
    if length s.host == 0
    then false
    else if (s.port == 0) || ltb 65535 s.port
    then false
    else if length s.username == 0
    then false
    else if length s.base_path == 0
    then false
    else are_servers_valid ss

-- Whether the integer lies outside of the bounds.
abbrev pub is_outside : ℕ → ℕ → ℤ → Bool
is_outside low high n = ltb_ℤ n (pos low) || ltb_ℤ (pos high) n

unfoldable pub validate : Config → ErrorCode
validate config =
    if ltb config.chunk_size min_chunk_size || ltb max_chunk_size config.chunk_size
    then config_validation
    else if is_outside 1 max_replication_factor config.replication_factor
    then config_validation
    else if ltb config.server_count 1
    then config_validation
    else if ltb_ℤ (pos config.server_count) config.replication_factor
    then insufficient_servers
    else if not (are_servers_valid (take config.server_count config.servers))
    then config_validation
    else if is_outside 1 32 config.max_concurrent_operations
    then config_validation
    else if is_outside 5 300 config.ftp_timeout
    then config_validation
    else if is_outside 30 3600 config.health_check_interval
    then config_validation
    else success

-- The check behind the parser.
abbrev pub validate_parsed : ErrorCode × Config → ErrorCode × Config
validate_parsed (e, config) = if failed e then (e, config) else (validate config, config)

module _ (overrun : List ℕ → Parser → ErrorCode × Parser) where
  -- The rest of the call, on what `fopen` and `fgets` answer.
  abbrev pub load_lines : Option (List (List ℕ)) → ErrorCode × Config
  load_lines none = (file_not_found, init_defaults)
  load_lines (some lines) = validate_parsed (parse_ini_file overrun init_defaults lines)

  -- The rest of the call, on the path that the expansion gave.
  abbrev pub load_expanded :
      (List ℕ → Option (List (List ℕ))) → Result (List ℕ) → ErrorCode × Config
  load_expanded files (err e) = (e, init_defaults)
  load_expanded files (ok path) = load_lines (files path)

  -- The code, and the configuration that the call leaves. `files` holds the lines of the files that
  -- can be opened; the two texts before the path are those of `expand_path`.
  unfoldable pub load_file :
      (List ℕ → Option (List (List ℕ)))
      → Option (List ℕ)
      → Option (List ℕ)
      → List ℕ
      → ErrorCode × Config
  load_file files env_home entry path =
      load_expanded files (expand_path env_home entry path max_path_len)

  unfoldable pub config_load :
      (List ℕ → Option (List (List ℕ)))
      → Option (List ℕ)
      → Option (List ℕ)
      → List ℕ
      → ErrorCode × Config
  config_load files env_home entry path = load_file files env_home entry path
