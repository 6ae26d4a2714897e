-- ===== src/Api/Types.antt =====
-- The structs of include/netchunk.h, and `netchunk_init` and `netchunk_cleanup` of src/netchunk.c.
use net_chunk.Base.{
  ℕ, Bool, true, false, not, Option, none, some, if◌then◌else◌, ErrorCode, success, out_of_memory,
  failed,
}
use net_chunk.Config.Types.{Config}

-- `netchunk_context_t`, without the progress callback; `ftp_context` says whether there is one.
pub record Context : Type 0 where
  pub config : Option Config
  pub ftp_context : Bool
  pub initialized : Bool

-- `netchunk_stats_t`, without the `double` of the elapsed seconds.
pub record Stats : Type 0 where
  pub bytes_processed : ℕ
  pub chunks_processed : ℕ
  pub servers_used : ℕ
  pub retries_performed : ℕ

-- What the calls in `netchunk_init` answer: the two allocations, the load of the configuration and
-- the start of the FTP client.
pub record Answers : Type 0 where
  pub config_allocated : Bool
  pub loaded : ErrorCode × Config
  pub ftp_allocated : Bool
  pub ftp_init : ErrorCode

abbrev pub zero_context : Context
zero_context = record { config = none; ftp_context = false; initialized = false }

-- What is set on an error is taken back.
unfoldable pub init : Answers → ErrorCode × Context
init a =
    if not a.config_allocated
    then (out_of_memory, zero_context)
    else if failed a.loaded.0
    then (a.loaded.0, zero_context)
    else if not a.ftp_allocated
    then (out_of_memory, zero_context)
    else if failed a.ftp_init
    then (a.ftp_init, zero_context)
    else (success, record { config = some a.loaded.1; ftp_context = true; initialized = true })

unfoldable pub cleanup : Context → Context
cleanup context = record { config = none; ftp_context = false; initialized = false }

-- The configuration of a context that passes the check of `initialized`.
abbrev pub ready : Context → Option Config
ready context = if context.initialized then context.config else none
