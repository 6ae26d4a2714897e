-- ===== src/Manifest/Types.antt =====
-- The structs and constants of include/manifest.h.
use net_chunk.Base.{ℕ, Bool, false, Option, none, some, List, [], take, replicate}
use net_chunk.Base.Int.{ℤ, pos}
use net_chunk.Libc.Text.{codes}
use net_chunk.Chunker.Types.{Chunk}

-- `netchunk_file_manifest_t`; `chunks` is `none` for NULL, and `chunk_count` is a field of its own.
pub record FileManifest : Type 0 where
  pub original_filename : List ℕ
  pub manifest_id : List ℕ
  pub version : List ℕ
  pub total_size : ℕ
  pub original_size : ℕ
  pub file_hash : List ℕ
  pub chunk_size : ℕ
  pub chunk_count : ℕ
  pub created_timestamp : ℕ
  pub last_accessed : ℕ
  pub last_modified : ℕ
  pub last_verified : ℕ
  pub chunks : Option (List Chunk)
  pub chunks_owned : Bool
  pub replication_factor : ℤ
  pub min_replicas_required : ℤ
  pub creator_info : List ℕ
  pub comment : List ℕ

-- What `memset` leaves.
abbrev pub zero_manifest : FileManifest
zero_manifest = record {
  original_filename = [];
  manifest_id = [];
  version = [];
  total_size = 0;
  original_size = 0;
  file_hash = replicate 32 0;
  chunk_size = 0;
  chunk_count = 0;
  created_timestamp = 0;
  last_accessed = 0;
  last_modified = 0;
  last_verified = 0;
  chunks = none;
  chunks_owned = false;
  replication_factor = pos 0;
  min_replicas_required = pos 0;
  creator_info = [];
  comment = [];
}

abbrev pub array_of : Option (List Chunk) → List Chunk
array_of none = []
array_of (some cs) = cs

-- The chunks that a loop up to `chunk_count` visits.
abbrev pub chunks_of : FileManifest → List Chunk
chunks_of m = take m.chunk_count (array_of m.chunks)

-- `NETCHUNK_MANIFEST_VERSION`
abbrev pub manifest_version : List ℕ
manifest_version = codes "1.0"

-- `NETCHUNK_MANIFEST_EXTENSION`
abbrev pub manifest_extension : List ℕ
manifest_extension = codes ".netchunk"

-- `NETCHUNK_MANIFEST_TEMP_SUFFIX`
abbrev pub temp_suffix : List ℕ
temp_suffix = codes ".tmp"

-- `NETCHUNK_MAX_MANIFEST_PATH_LEN`
abbrev pub max_manifest_path_len : ℕ
max_manifest_path_len = 1024
