-- ===== src/Config/Names.antt =====
-- The names of src/config.c: `netchunk_error_string`, `netchunk_log_level_from_string` and
-- `netchunk_log_level_to_string`.
use net_chunk.Base.{
  ℕ, List, Option, none, some, ◌||◌, if◌then◌else◌, ErrorCode, success, invalid_argument,
  out_of_memory, file_not_found, file_access, network, ftp, config_parse, config_validation,
  chunk_integrity, manifest_corrupt, server_unavailable, insufficient_servers, crypto, timeout,
  cancelled,
}
use net_chunk.Libc.Text.{codes, same_text_nocase}
use net_chunk.Config.Types.{LogLevel, error, warn, info, debug}

unfoldable pub error_string : ErrorCode → List ℕ
error_string success = codes "Success"
error_string invalid_argument = codes "Invalid argument"
error_string out_of_memory = codes "Out of memory"
error_string file_not_found = codes "File not found"
error_string file_access = codes "File access error"
error_string network = codes "Network error"
error_string ftp = codes "FTP error"
error_string config_parse = codes "Configuration parse error"
error_string config_validation = codes "Configuration validation error"
error_string chunk_integrity = codes "Chunk integrity error"
error_string manifest_corrupt = codes "Manifest corruption error"
error_string server_unavailable = codes "Server unavailable"
error_string insufficient_servers = codes "Insufficient servers"
error_string crypto = codes "Cryptographic error"
error_string timeout = codes "Operation timeout"
error_string cancelled = codes "Operation cancelled"
error_string code = codes "Unknown error"

-- `none` is NULL.
unfoldable pub log_level_from_string : Option (List ℕ) → LogLevel
log_level_from_string none = info
log_level_from_string (some level) =
    if same_text_nocase level (codes "ERROR")
    then error
    else if same_text_nocase level (codes "WARN") || same_text_nocase level (codes "WARNING")
    then warn
    else if same_text_nocase level (codes "INFO")
    then info
    else if same_text_nocase level (codes "DEBUG")
    then debug
    else info

unfoldable pub log_level_to_string : LogLevel → List ℕ
log_level_to_string error = codes "ERROR"
log_level_to_string warn = codes "WARN"
log_level_to_string info = codes "INFO"
log_level_to_string debug = codes "DEBUG"
