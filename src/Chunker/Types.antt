-- ===== src/Chunker/Types.antt =====
-- The structs of include/chunker.h. An array with its count is the list of its live entries.
use net_chunk.Base.{ℕ, Bool, Option, List, length}

-- `netchunk_chunk_location_t`
pub record Location : Type 0 where
  pub server_id : List ℕ
  pub remote_path : List ℕ
  pub upload_time : ℕ
  pub verified : Bool
  pub last_verified : ℕ

-- `netchunk_chunk_t`; `bytes` is the pointer `data`, `none` for NULL.
pub record Chunk : Type 0 where
  pub id : List ℕ
  pub hash : List ℕ
  pub size : ℕ
  pub sequence_number : ℕ
  pub created_timestamp : ℕ
  pub locations : List Location
  pub bytes : Option (List ℕ)
  pub data_owned : Bool

abbrev pub location_count : Chunk → ℕ
location_count c = length c.locations

-- `netchunk_file_info_t`
pub record FileInfo : Type 0 where
  pub filename : List ℕ
  pub total_size : ℕ
  pub created_timestamp : ℕ
  pub last_accessed : ℕ
  pub chunk_count : ℕ
  pub file_hash : List ℕ
  pub chunk_size : ℕ

-- `NETCHUNK_MAX_CHUNK_LOCATIONS`, which is `NETCHUNK_MAX_REPLICATION_FACTOR`
abbrev pub max_chunk_locations : ℕ
max_chunk_locations = 10

-- `NETCHUNK_MAX_PATH_LEN`
abbrev pub max_path_len : ℕ
max_path_len = 1024
