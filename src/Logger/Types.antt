-- ===== src/Logger/Types.antt =====
-- The structs of include/logger.h, and the texts that src/logger.c makes of a message.
use net_chunk.Base.{
  ℕ, Bool, true, false, Option, none, some, List, [], ◌++◌, ◌==◌, if◌then◌else◌, length, take,
}
use net_chunk.Base.Int.{ℤ, pos}
use net_chunk.Libc.Text.{codes}
use net_chunk.Libc.Decimal.{decimal}
use net_chunk.Chunker.Stream.{base_name}
use net_chunk.Config.Types.{LogLevel, error, warn, info, debug}

-- `netchunk_logger_config_t`
pub record LoggerConfig : Type 0 where
  pub level : LogLevel
  pub log_file_path : List ℕ
  pub log_to_file : Bool
  pub log_to_stdout : Bool
  pub max_file_size : ℕ
  pub max_backup_files : ℤ
  pub include_timestamp : Bool
  pub include_level : Bool
  pub include_location : Bool

-- `netchunk_logger_context_t`; `log_file` says whether the file is open.
pub record Logger : Type 0 where
  pub config : LoggerConfig
  pub log_file : Bool
  pub current_file_size : ℕ
  pub initialized : Bool

abbrev pub default_config : LoggerConfig
default_config = record {
  level = info;
  log_file_path = codes "netchunk.log";
  log_to_file = true;
  log_to_stdout = false;
  max_file_size = 10485760;
  max_backup_files = pos 5;
  include_timestamp = true;
  include_level = true;
  include_location = false;
}

-- The value of the enumeration.
abbrev pub level_number : LogLevel → ℕ
level_number error = 0
level_number warn = 1
level_number info = 2
level_number debug = 3

abbrev pub level_string : LogLevel → List ℕ
level_string error = codes "ERROR"
level_string warn = codes "WARN "
level_string info = codes "INFO "
level_string debug = codes "DEBUG"

-- A call of `netchunk_logger_log`: `message` is what the format and its arguments make, `stamp` what
-- `strftime` makes of the time.
pub record Call : Type 0 where
  pub level : LogLevel
  pub file : Option (List ℕ)
  pub line : ℕ
  pub message : List ℕ
  pub stamp : List ℕ

abbrev pub location_text : Option (List ℕ) → ℕ → List ℕ
location_text none line = []
location_text (some file) line =
    take 255 (codes " " ++ (base_name file file ++ (codes ":" ++ decimal line)))

-- `log_line`
unfoldable pub log_line : LoggerConfig → Call → List ℕ
log_line config call =
    let stamp = if config.include_timestamp then call.stamp else [] in
    let space = if length stamp == 0 then [] else codes " " in
    let level =
      if config.include_level then codes "[" ++ (level_string call.level ++ codes "]") else [] in
    let location = if config.include_location then location_text call.file call.line else [] in
    take 4095 (
      stamp
      ++ (space ++ (level ++ (location ++ (codes ": " ++ (take 2047 call.message ++ codes "\n"))))))
