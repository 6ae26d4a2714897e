-- ===== src/Manifest/Check.antt =====
-- The checks of a manifest in src/manifest.c: `netchunk_manifest_validate`,
-- `netchunk_manifest_get_statistics` and `netchunk_manifest_find_under_replicated_chunks`.
use net_chunk.Base.{
  ℕ, suc, ◌+◌, Bool, true, false, not, ◌||◌, List, [], ◌∷◌, ltb, ◌==◌, if◌then◌else◌, u64, length,
  ErrorCode, success, invalid_argument, out_of_memory, manifest_corrupt, config_validation, Result,
  ok, err,
}
use net_chunk.Base.Int.{ℤ, pos, ltb_ℤ}
use net_chunk.Chunker.Types.{Chunk, location_count, max_chunk_locations}
use net_chunk.Chunker.Count.{calculate_chunk_count}
use net_chunk.Config.Types.{min_chunk_size, max_chunk_size}
use net_chunk.Manifest.Types.{FileManifest, chunks_of}

-- The loop over the chunks, from the index `i`.
unfoldable pub are_chunks_valid : ℕ → List Chunk → Bool
are_chunks_valid i [] = true
are_chunks_valid i (c ∷ cs) =
    if (length c.id == 0) || not (c.sequence_number == i)
    then false
    else if ltb max_chunk_locations (location_count c)
    then false
    else are_chunks_valid (suc i) cs

unfoldable pub manifest_validate : FileManifest → ErrorCode
manifest_validate m =
    if length m.version == 0
    then manifest_corrupt
    else if (length m.original_filename == 0)
        || ((length m.manifest_id == 0)
            || ((m.total_size == 0) || ((m.chunk_size == 0) || (m.chunk_count == 0))))
    then manifest_corrupt
    else if ltb m.chunk_size min_chunk_size || ltb max_chunk_size m.chunk_size
    then config_validation
    else if not (m.chunk_count == calculate_chunk_count m.total_size m.chunk_size)
    then manifest_corrupt
    else if not (are_chunks_valid 0 (chunks_of m))
    then manifest_corrupt
    else success

-- What `netchunk_manifest_get_statistics` counts. The least number of replicas is read only
-- where a chunk is stored; the average is the quotient of `replica_sum` and `stored`.
pub record ManifestStats : Type 0 where
  pub stored : ℕ
  pub size_sum : ℕ
  pub replica_sum : ℕ
  pub least : ℕ
  pub missing : ℕ

-- One turn of the loop.
unfoldable pub count_stored : ManifestStats → Chunk → ManifestStats
count_stored s c =
    if location_count c == 0 then record s { missing = s.missing + 1 } else record s {
      stored = s.stored + 1;
      size_sum = u64 (s.size_sum + c.size);
      replica_sum = s.replica_sum + location_count c;
      least = if ltb (location_count c) s.least then location_count c else s.least;
    }

unfoldable pub count_all : ManifestStats → List Chunk → ManifestStats
count_all s [] = s
count_all s (c ∷ cs) = count_all (count_stored s c) cs

-- `least` starts as INT_MAX and is 0 where nothing is stored.
unfoldable pub manifest_statistics : FileManifest → ManifestStats
manifest_statistics m =
    let s =
      count_all
        (record { stored = 0; size_sum = 0; replica_sum = 0; least = 2147483647; missing = 0 })
        (chunks_of m) in
    if s.stored == 0 then record s { least = 0 } else s

-- The first loop.
unfoldable pub count_under : ℤ → List Chunk → ℕ
count_under k [] = 0
count_under k (c ∷ cs) =
    if ltb_ℤ (pos (location_count c)) k then suc (count_under k cs) else count_under k cs

-- The second loop, from the index `i`.
unfoldable pub indices_under : ℤ → ℕ → List Chunk → List ℕ
indices_under k i [] = []
indices_under k i (c ∷ cs) =
    if ltb_ℤ (pos (location_count c)) k
    then i ∷ indices_under k (suc i) cs
    else indices_under k (suc i) cs

-- The indices and their count; the array is NULL, here empty, where the count is 0.
unfoldable pub find_under_replicated : FileManifest → ℤ → Bool → Result (List ℕ × ℕ)
find_under_replicated m min_replicas allocated =
    let count = count_under min_replicas (chunks_of m) in
    if ltb_ℤ min_replicas (pos 1)
    then err invalid_argument
    else if count == 0
    then ok ([], 0)
    else if not allocated
    then err out_of_memory
    else ok (indices_under min_replicas 0 (chunks_of m), count)
