-- ===== src/Logger/Refine.antt =====
-- The log file of src/logger.c and its backups keep a history of lines.
use net_chunk.Base.{
  success, ℕ, suc, ◌+◌, ◌^◌, ◌<◌, ◌≤◌, Bool, true, false, none, some, List, [], ◌∷◌, ◌++◌, ◌≡◌,
  refl, ap, ◌∙◌, arith, ltb, if◌then◌else◌, length, take, length-take, u64, inl, inr, Bool-cases,
}
use net_chunk.Base.Int.{pos}
use net_chunk.Libc.Text.{same_text_refl}
use net_chunk.Libc.Files.{Files, put, put_other}
use net_chunk.Logger.Types.{LoggerConfig, Logger, level_number, Call, log_line}
use net_chunk.Logger.Write.{content, Output, write_line, vlog, logger_init}
use net_chunk.Logger.Rotation.{name, Fit, names_differ}
use net_chunk.Logger.History.{History, record_line, IsLog}
use net_chunk.Logger.Rotated.{rotated, rotate_lem, rotated-IsLog, append_line-IsLog}

length-take_le : (n : ℕ) (xs : List ℕ) → length (take n xs) ≤ n
length-take_le n xs = omega (arith, length-take n xs)

length-log_line : (config : LoggerConfig) (call : Call) → length (log_line config call) ≤ 4095
unfolding log_line
length-log_line config call = length-take_le 4095 _

module _ (moves : ℕ → Bool) (granted : (i : ℕ) → moves i ≡ true) where
  write_line-IsLog :
      (n : ℕ) (logger : Logger) (fs : Files) (h : History) (line : List ℕ)
      → IsLog n logger fs h
      → length line ≤ 4095
      → IsLog n
          (write_line moves true line logger fs).0
          (write_line moves true line logger fs).1
          (record_line logger.config.max_file_size n line h)
  unfolding write_line
  write_line-IsLog n logger fs h line l short =
      let limit = logger.config.max_file_size in
      let sum : u64 (logger.current_file_size + length line) ≡ length h.current + length line =
        omega (arith, l.size, l.small, short) in
      elim (Bool-cases (ltb limit (length h.current + length line))) [
        | inl e ↦
            let begun = rotated moves granted n logger fs h l in
            rw (write_line, sum, e, rotate_lem moves granted n logger fs h l)
              (append_line-IsLog moves granted n begun.0 begun.1
                (record { current = []; backups = take n (h.current ∷ h.backups) })
                (rotated-IsLog moves granted n logger fs h l) line (omega (arith, short)))
        | inr e ↦
            rw (write_line, sum, e)
              (append_line-IsLog moves granted n logger fs h l line
                (ground (arith, e, l.limit_small)))
      ]

  vlog_filtered :
      (call : Call) (logger : Logger) (out : Output)
      → ltb (level_number logger.config.level) (level_number call.level) ≡ true
      → vlog moves true call logger out ≡ (logger, out)
  unfolding vlog
  vlog_filtered call logger out e = elim (Bool-cases logger.initialized) [
    | inl started ↦ simp (started, e)
    | inr started ↦ simp started
  ]

  vlog_written :
      (call : Call) (logger : Logger) (out : Output)
      → ltb (level_number logger.config.level) (level_number call.level) ≡ false
      → logger.initialized ≡ true
      → logger.config.log_to_file ≡ true
      → logger.log_file ≡ true
      → vlog moves true call logger out ≡ (
        (write_line moves true (log_line logger.config call) logger out.files).0,
        record {
          files = (write_line moves true (log_line logger.config call) logger out.files).1;
          printed =
              if logger.config.log_to_stdout
              then out.printed ++ log_line logger.config call
              else out.printed;
        },
      )
  unfolding vlog
  vlog_written call logger out e started to_file is_open = simp (e, started, to_file, is_open)

  -- While the system grants every `rename`, `fopen` and `fputs`, the log file and its backups go on holding a
  -- history: a message of a level that is logged adds its line whole, to the current file where it
  -- fits and to a new one where it does not, and a message of another level adds nothing.
  pub vlog-IsLog :
      (n : ℕ) (call : Call) (logger : Logger) (out : Output) (h : History)
      → IsLog n logger out.files h
      → let (logger', out') = vlog moves true call logger out in
        IsLog n logger' out'.files (
          if ltb (level_number logger.config.level) (level_number call.level)
          then h
          else record_line logger.config.max_file_size n (log_line logger.config call) h)
  vlog-IsLog n call logger out h l =
      elim (Bool-cases (ltb (level_number logger.config.level) (level_number call.level))) [
        | inl e ↦ rw (vlog_filtered call logger out e, e) l
        | inr e ↦
            rw (vlog_written call logger out e l.started l.to_file l.is_open, e)
              (write_line-IsLog n logger out.files h (log_line logger.config call) l
                (length-log_line logger.config call))
      ]

logger_init_lem :
    (config : LoggerConfig) (fs : Files)
    → config.log_to_file ≡ true
    → logger_init true (some config) fs ≡ (
      success,
      (
        record {
          config = config;
          log_file = true;
          current_file_size = length (content (fs config.log_file_path));
          initialized = true;
        },
        put fs config.log_file_path (some (content (fs config.log_file_path))),
      ),
    )
unfolding logger_init
logger_init_lem config fs to_file = simp to_file

-- A logger that begins with no files of its names holds the empty history.
pub logger_init-IsLog :
    (n : ℕ) (config : LoggerConfig) (fs : Files)
    → config.log_to_file ≡ true
    → config.max_backup_files ≡ pos n
    → 1 ≤ n
    → Fit config.log_file_path n
    → config.max_file_size < 2 ^ 63
    → ((i : ℕ) → fs (name config.log_file_path i) ≡ none)
    → let (code, (logger, fs')) = logger_init true (some config) fs in
      (code ≡ success) × IsLog n logger fs' (record { current = []; backups = [] })
logger_init-IsLog n config fs to_file count pos_n fit limit fresh =
    rw (logger_init_lem config fs to_file) (
      refl,
      record {
        started = refl;
        to_file = to_file;
        is_open = refl;
        backup_count = count;
        some_backups = pos_n;
        fit = fit;
        limit_small = limit;
        small = omega arith;
        size = ap (λ o. length (content o)) (fresh 0);
        here = rw (same_text_refl config.log_file_path) (ap (λ o. some (content o)) (fresh 0));
        stored = λ i le.
            put_other fs (name config.log_file_path (suc i)) config.log_file_path
              (some (content (fs config.log_file_path)))
              (names_differ config.log_file_path n fit (suc i) 0 le (omega arith)
                (λ e. absurd (omega (arith, e))))
            ∙ fresh (suc i);
      },
    )
