-- ===== src/Logger/History.antt =====
-- The history of lines that src/logger.c keeps in its log file and the backups.
use net_chunk.Base.{
  ℕ, suc, ◌+◌, ◌^◌, ◌<◌, ◌≤◌, true, some, List, ◌∷◌, ◌++◌, ◌≡◌, ltb, if◌then◌else◌, length, take,
  get_elem?,
}
use net_chunk.Base.Int.{pos}
use net_chunk.Libc.Files.{Files}
use net_chunk.Logger.Types.{Logger}
use net_chunk.Logger.Rotation.{name, Fit}

-- What a log is for: the text of the current file, and those of the files before it, newest first.
pub record History : Type 0 where
  pub current : List ℕ
  pub backups : List (List ℕ)

-- A line is added whole. Where it does not fit, a new file is begun, and of the old ones the
-- newest `n` are kept.
abbrev pub record_line : ℕ → ℕ → List ℕ → History → History
record_line limit n line h =
    if ltb limit (length h.current + length line)
    then record { current = line; backups = take n (h.current ∷ h.backups) }
    else record h { current = h.current ++ line }

-- A logger that is open, with `n` backups, and its files hold the history.
pub record IsLog (n : ℕ) (logger : Logger) (fs : Files) (h : History) : Type 0 where
  pub started : logger.initialized ≡ true
  pub to_file : logger.config.log_to_file ≡ true
  pub is_open : logger.log_file ≡ true
  pub backup_count : logger.config.max_backup_files ≡ pos n
  pub some_backups : 1 ≤ n
  pub fit : Fit logger.config.log_file_path n
  pub limit_small : logger.config.max_file_size < 2 ^ 63
  pub small : length h.current < 2 ^ 63
  pub size : logger.current_file_size ≡ length h.current
  pub here : fs logger.config.log_file_path ≡ some h.current
  pub stored :
      (i : ℕ) → i < n → fs (name logger.config.log_file_path (suc i)) ≡ get_elem? h.backups i
