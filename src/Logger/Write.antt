-- ===== src/Logger/Write.antt =====
-- The operations of src/logger.c. Each takes what `fopen`, `rename` and `malloc` answer.
use net_chunk.Base.{
  ℕ, zero, suc, ◌+◌, Bool, true, false, not, ◌&&◌, Option, none, some, List, [], ◌++◌, ltb,
  if◌then◌else◌, length, take, u64, ErrorCode, success, invalid_argument, file_access,
  out_of_memory, failed,
}
use net_chunk.Base.Int.{pos, pos_part, ◌-ℤ◌}
use net_chunk.Libc.Text.{codes, same_text}
use net_chunk.Libc.Decimal.{decimal}
use net_chunk.Libc.Files.{Files, put}
use net_chunk.Config.Types.{LogLevel}
use net_chunk.Logger.Types.{LoggerConfig, Logger, default_config, level_number, Call, log_line}

abbrev pub content : Option (List ℕ) → List ℕ
content none = []
content (some text) = text

abbrev pub zero_logger : LoggerConfig → Logger
zero_logger config = record {
  config = config;
  log_file = false;
  current_file_size = 0;
  initialized = false;
}

-- `fopen` with "a" makes the file if it is not there.
unfoldable pub logger_init : Bool → Option LoggerConfig → Files → ErrorCode × (Logger × Files)
logger_init opened given fs =
    let config : LoggerConfig = elim given [ none ↦ default_config | some config ↦ config ] in
    let old = content (fs config.log_file_path) in
    if not config.log_to_file
    then (success, (record (zero_logger config) { initialized = true }, fs))
    else if not opened
    then (file_access, (zero_logger config, fs))
    else (
      success,
      (
        record (zero_logger config) {
          log_file = true;
          current_file_size = length old;
          initialized = true;
        },
        put fs config.log_file_path (some old),
      ),
    )

-- A level outside the enumeration is refused too.
unfoldable pub set_level : LogLevel → Logger → ErrorCode × Logger
set_level level logger =
    if not logger.initialized
    then (invalid_argument, logger)
    else (success, record logger { config = record logger.config { level = level } })

unfoldable pub backup_name : List ℕ → ℕ → List ℕ
backup_name path i = take 1023 (path ++ (codes "." ++ decimal i))

-- `rename`, where `moved` says whether the system grants it; without a source it does nothing.
unfoldable pub rename_file : Bool → List ℕ → List ℕ → Files → Files
rename_file moved from to fs = elim (fs from) [
  | none ↦ fs
  | some text ↦
      if not moved
      then fs
      else if same_text from to
      then fs
      else put (put fs to (some text)) from none
]

-- The loop over the backups, from the number `i` down to 1.
unfoldable pub shift_backups : (ℕ → Bool) → List ℕ → ℕ → Files → Files
shift_backups moves path zero fs = fs
shift_backups moves path (suc i) fs =
    shift_backups moves path i
      (rename_file (moves (suc i)) (backup_name path (suc i)) (backup_name path (suc (suc i))) fs)

unfoldable pub rotate : (ℕ → Bool) → Bool → Logger → Files → ErrorCode × (Logger × Files)
rotate moves created logger fs =
    let path = logger.config.log_file_path in
    let shifted =
      shift_backups moves path (pos_part (logger.config.max_backup_files -ℤ pos 1)) fs in
    let moved = rename_file (moves 0) path (backup_name path 1) shifted in
    if not (logger.initialized && logger.config.log_to_file)
    then (invalid_argument, (logger, fs))
    else if not created
    then (file_access, (record logger { log_file = false }, moved))
    else (
      success,
      (record logger { log_file = true; current_file_size = 0 }, put moved path (some [])),
    )

-- What a logger writes to.
pub record Output : Type 0 where
  pub files : Files
  pub printed : List ℕ

-- The last part: a line behind the file, if it is open.
unfoldable pub append_line : List ℕ → Logger × Files → Logger × Files
append_line line (logger, fs) =
    let path = logger.config.log_file_path in
    if logger.log_file
    then (
      record logger { current_file_size = u64 (logger.current_file_size + length line) },
      put fs path (some (content (fs path) ++ line)),
    )
    else (logger, fs)

unfoldable pub write_line : (ℕ → Bool) → Bool → List ℕ → Logger → Files → Logger × Files
write_line moves created line logger fs =
    if ltb logger.config.max_file_size (u64 (logger.current_file_size + length line))
    then append_line line (rotate moves created logger fs).1
    else append_line line (logger, fs)

unfoldable pub vlog : (ℕ → Bool) → Bool → Call → Logger → Output → Logger × Output
vlog moves created call logger out =
    let line = log_line logger.config call in
    let printed = if logger.config.log_to_stdout then out.printed ++ line else out.printed in
    let (logger', files) = write_line moves created line logger out.files in
    if not logger.initialized
    then (logger, out)
    else if ltb (level_number logger.config.level) (level_number call.level)
    then (logger, out)
    else if logger.config.log_to_file && logger.log_file
    then (logger', record { files = files; printed = printed })
    else (logger, record out { printed = printed })

unfoldable pub logger_cleanup : Logger → Logger
logger_cleanup logger = record logger {
  log_file = false;
  current_file_size = 0;
  initialized = false;
}

-- `netchunk_global_logger`, with the two functions on it.
unfoldable pub init_global :
    Bool → Bool → Option LoggerConfig → Option Logger → Files → ErrorCode × (Option Logger × Files)
init_global allocated opened given (some logger) fs = (success, (some logger, fs))
init_global allocated opened given none fs =
    let (code, (logger, fs')) = logger_init opened given fs in
    if not allocated
    then (out_of_memory, (none, fs))
    else if failed code
    then (code, (none, fs'))
    else (success, (some logger, fs'))
