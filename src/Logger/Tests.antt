-- ===== src/Logger/Tests.antt =====
-- A log of two messages, of which the second begins a new file.
use net_chunk.Base.{ℕ, zero, suc, ◌≡◌, refl, arith, true, false, none, some, [], ◌∷◌, Bool, take}
use net_chunk.Base.Int.{pos, ◌-ℤ◌}
use net_chunk.Libc.Text.{codes, same_text}
use net_chunk.Libc.Decimal.{decimal}
use net_chunk.Libc.Files.{Files}
use net_chunk.Config.Types.{info}
use net_chunk.Logger.Types.{LoggerConfig, Logger, default_config, Call, log_line}
use net_chunk.Logger.Write.{
  logger_init, backup_name, rename_file, shift_backups, rotate, Output, append_line, write_line,
  vlog,
}
use net_chunk.Logger.Rotation.{Fit}
use net_chunk.Logger.History.{record_line, IsLog}
use net_chunk.Logger.Refine.{vlog-IsLog, logger_init-IsLog}

abbrev config : LoggerConfig
config = record default_config {
  log_file_path = codes "log";
  max_file_size = 20;
  max_backup_files = pos 2;
  include_timestamp = false;
}

abbrev no_files : Files
no_files path = none

abbrev grant : ℕ → Bool
grant i = true

abbrev call : Call
call = record { level = info; file = none; line = 7; message = codes "done"; stamp = [] }

names_fit : Fit (codes "log") 2
unfolding decimal
names_fit zero h = omega arith
names_fit (suc zero) h = omega arith
names_fit (suc (suc zero)) h = omega arith
names_fit (suc (suc (suc i))) h = absurd (omega arith)

abbrev started : Logger × Files
started = (logger_init true (some config) no_files).1

abbrev first : Logger × Output
first = vlog grant true call started.0 (record { files = started.1; printed = [] })

abbrev second : Logger × Output
second = vlog grant true call first.0 first.1

-- `[INFO ]: done` takes 14 bytes with its line end.
two_files :
    second.1.files (codes "log")
      ∷ second.1.files (codes "log.1")
      ∷ second.1.files (codes "log.2")
      ∷ []
    ≡ some (codes "[INFO ]: done\n") ∷ some (codes "[INFO ]: done\n") ∷ none ∷ []
unfolding vlog write_line rotate append_line shift_backups rename_file backup_name logger_init
    log_line same_text decimal take ◌-ℤ◌
two_files = refl

vlog-IsLog_example :
    IsLog 2 first.0 first.1.files
      (record_line 20 2 (log_line config call) (record { current = []; backups = [] }))
unfolding logger_init
vlog-IsLog_example =
    vlog-IsLog grant (λ i. refl) 2 call started.0 (record { files = started.1; printed = [] })
      (record { current = []; backups = [] })
      (logger_init-IsLog 2 config no_files refl refl (omega arith) names_fit (omega arith)
        (λ i. refl)).1
