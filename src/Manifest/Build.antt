-- ===== src/Manifest/Build.antt =====
-- How a manifest is made in src/manifest.c: `netchunk_file_manifest_init`,
-- `netchunk_file_manifest_create_from_chunker`, `netchunk_generate_manifest_id`,
-- `netchunk_manifest_init`, `netchunk_manifest_add_chunk`, `netchunk_file_manifest_cleanup` and
-- `netchunk_manifest_update_timestamps`. The clock, the random bytes and `malloc` are arguments.
use net_chunk.Base.{
  ℕ, ◌+◌, ◌-◌, Bool, true, false, not, ◌&&◌, Option, none, some, List, [], ◌∷◌, ◌++◌, u32,
  if◌then◌else◌, take, get_or, ErrorCode, success, out_of_memory, Result, ok, err,
}
use net_chunk.Base.Int.{pos}
use net_chunk.Libc.Text.{codes}
use net_chunk.Libc.Decimal.{decimal}
use net_chunk.Crypto.Hex.{hex_byte}
use net_chunk.Chunker.Types.{Chunk, FileInfo, max_path_len}
use net_chunk.Chunker.Stream
use net_chunk.Manifest.Types.{FileManifest, zero_manifest, manifest_version}

-- Four bytes of an array from an index on, in hexadecimal.
abbrev hex_four : List ℕ → ℕ → List ℕ
hex_four bytes i =
    hex_byte (get_or bytes i 0)
    ++ (hex_byte (get_or bytes (i + 1) 0)
        ++ (hex_byte (get_or bytes (i + 2) 0) ++ hex_byte (get_or bytes (i + 3) 0)))

-- `snprintf` into 64 characters. Asked for 16 bytes, the random source always gives them.
unfoldable pub generate_manifest_id : List ℕ → List ℕ → List ℕ
generate_manifest_id file_hash random = take 63 (
    codes "manifest_"
    ++ (hex_four file_hash 0
        ++ (codes "_"
            ++ (hex_four random 0
                ++ (codes "_" ++ (hex_four random 4 ++ (codes "_" ++ hex_four random 8)))))))

-- The text `NetChunk v1.0`.
abbrev creator : List ℕ
creator = codes "NetChunk v" ++ manifest_version

-- The array that is given, copied.
abbrev copy_chunks : Option (List Chunk) → Bool → FileManifest → Result FileManifest
copy_chunks none allocated m = ok (record m { chunks = none; chunks_owned = false })
copy_chunks (some []) allocated m = ok (record m { chunks = none; chunks_owned = false })
copy_chunks (some (c ∷ cs)) allocated m =
    if not allocated
    then err out_of_memory
    else ok (record m { chunks = some (c ∷ cs); chunks_owned = true })

-- The array's own length is the argument `chunk_count`; the field takes the count of `info`.
unfoldable pub file_manifest_init :
    FileInfo → Option (List Chunk) → List ℕ → Bool → Result FileManifest
file_manifest_init info chunks random allocated =
    copy_chunks chunks allocated (record zero_manifest {
      original_filename = take (max_path_len - 1) info.filename;
      version = manifest_version;
      total_size = info.total_size;
      file_hash = info.file_hash;
      chunk_size = info.chunk_size;
      chunk_count = info.chunk_count;
      created_timestamp = info.created_timestamp;
      last_accessed = info.last_accessed;
      last_modified = info.created_timestamp;
      manifest_id = generate_manifest_id info.file_hash random;
      replication_factor = pos 3;
      min_replicas_required = pos 1;
      creator_info = creator;
    })

unfoldable pub create_from_chunker :
    Stream.Context → Option (List Chunk) → List ℕ → Bool → Result FileManifest
create_from_chunker context chunks random allocated =
    file_manifest_init context.file_info chunks random allocated

-- `clock i` is the time at the `i`-th call of `time`.
unfoldable pub manifest_init : List ℕ → ℕ → (ℕ → ℕ) → FileManifest
manifest_init remote_name file_size clock = record zero_manifest {
  original_filename = take (max_path_len - 1) remote_name;
  version = manifest_version;
  total_size = file_size;
  original_size = file_size;
  created_timestamp = clock 0;
  last_accessed = clock 1;
  last_modified = clock 2;
  manifest_id = take 63 (codes "manifest_" ++ (remote_name ++ (codes "_" ++ decimal (clock 3))));
  replication_factor = pos 3;
  min_replicas_required = pos 1;
  creator_info = creator;
}

-- Whether the chunk owns data, which are then copied.
abbrev pub owns_bytes : Chunk → Bool
owns_bytes c = elim c.bytes [ none ↦ false | some bytes ↦ c.data_owned ]

abbrev first_bytes : ℕ → Option (List ℕ) → Option (List ℕ)
first_bytes n none = none
first_bytes n (some bytes) = some (take n bytes)

-- The bytes of the copy, up to the chunk's size.
abbrev copied : Chunk → Chunk
copied c = if owns_bytes c then record c { bytes = first_bytes c.size c.bytes } else c

-- The array as it stands when a chunk is stored at the index `chunk_count`.
abbrev stored_in : Option (List Chunk) → ℕ → Chunk → List Chunk
stored_in none count c = c ∷ []
stored_in (some cs) count c = take count cs ++ (c ∷ [])

-- The number of chunks before the one that is added.
abbrev count_in : Option (List Chunk) → ℕ → ℕ
count_in none count = 0
count_in (some cs) count = count

abbrev owned_after : Option (List Chunk) → Bool → Bool
owned_after none owned = true
owned_after (some cs) owned = owned

-- `grown` is whether the array could be made larger, `allocated` whether the copy of the data
-- could be made; without the copy the count does not include the chunk.
unfoldable pub add_chunk : FileManifest → Chunk → Bool → Bool → ErrorCode × FileManifest
add_chunk m c grown allocated =
    if not grown
    then (out_of_memory, m)
    else let count = count_in m.chunks m.chunk_count in
      let owned = owned_after m.chunks m.chunks_owned in
      if owns_bytes c && not allocated
      then (
        out_of_memory,
        record m {
          chunks = some (stored_in m.chunks count (record c { bytes = none }));
          chunks_owned = owned;
          chunk_count = count;
        },
      )
      else (
        success,
        record m {
          chunks = some (stored_in m.chunks count (copied c));
          chunks_owned = owned;
          chunk_count = u32 (count + 1);
        },
      )

unfoldable pub file_manifest_cleanup : FileManifest → FileManifest
file_manifest_cleanup m = elim m.chunks [
  | none ↦ record m { chunks_owned = false }
  | some cs ↦
      if m.chunks_owned
      then record m { chunks = none; chunks_owned = false }
      else record m { chunks_owned = false }
]

unfoldable pub update_timestamps : FileManifest → Bool → Bool → Bool → ℕ → FileManifest
update_timestamps m accessed modified verified now = record m {
  last_accessed = if accessed then now else m.last_accessed;
  last_modified = if modified then now else m.last_modified;
  last_verified = if verified then now else m.last_verified;
}
