-- ===== src/Repair/Types.antt =====
-- The types of include/repair.h, and `netchunk_repair_init`, `netchunk_repair_cleanup` and
-- `find_server_by_id` of src/repair.c.
use net_chunk.Base.{ℕ, Bool, true, false, Option, none, some, List, [], ◌∷◌, if◌then◌else◌, take}
use net_chunk.Libc.Text.{same_text}
use net_chunk.Config.Types.{Server, Config}

-- `netchunk_repair_mode_t`
pub data RepairMode : Type 0 where
  verify_only auto force : RepairMode

-- `netchunk_chunk_health_t`
pub data ChunkHealth : Type 0 where
  healthy degraded critical lost : ChunkHealth

-- `netchunk_repair_context_t`, without the FTP context and the progress callback.
pub record RepairContext : Type 0 where
  pub config : Option Config
  pub repair_mode : RepairMode
  pub initialized : Bool

-- `netchunk_repair_stats_t`, without the `double` of the elapsed seconds.
pub record RepairStats : Type 0 where
  pub chunks_verified : ℕ
  pub chunks_healthy : ℕ
  pub chunks_degraded : ℕ
  pub chunks_critical : ℕ
  pub chunks_lost : ℕ
  pub chunks_repaired : ℕ
  pub replicas_added : ℕ
  pub replicas_removed : ℕ

abbrev pub zero_stats : RepairStats
zero_stats = record {
  chunks_verified = 0;
  chunks_healthy = 0;
  chunks_degraded = 0;
  chunks_critical = 0;
  chunks_lost = 0;
  chunks_repaired = 0;
  replicas_added = 0;
  replicas_removed = 0;
}

abbrev pub repair_init : Config → RepairContext
repair_init config = record { config = some config; repair_mode = auto; initialized = true }

abbrev pub repair_cleanup : RepairContext → RepairContext
repair_cleanup context = record context { config = none; initialized = false }

-- The configuration of a context that passes the check of `initialized`.
abbrev pub ready : RepairContext → Option Config
ready context = if context.initialized then context.config else none

-- The servers that a loop up to `server_count` visits.
unfoldable pub live : Config → List Server
live config = take config.server_count config.servers

unfoldable pub first_server : List Server → List ℕ → Option Server
first_server [] key = none
first_server (s ∷ ss) key = if same_text s.id key then some s else first_server ss key

unfoldable pub find_server_by_id : Config → List ℕ → Option Server
find_server_by_id config key = first_server (live config) key
