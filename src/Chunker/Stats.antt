-- ===== src/Chunker/Stats.antt =====
-- The functions over an array of chunks: `netchunk_find_chunk_by_id`,
-- `netchunk_verify_chunk_replicas` and `netchunk_get_chunk_statistics` of src/chunker.c.
use net_chunk.Base.{
  ℕ, suc, ◌+◌, Bool, true, false, Option, none, some, List, [], ◌∷◌, ◌==◌, ◌||◌, ltb, u64,
  if◌then◌else◌, length,
}
use net_chunk.Base.Int.{ℤ, pos, ltb_ℤ}
use net_chunk.Libc.Text.{same_text}
use net_chunk.Chunker.Types.{Chunk, location_count}

-- `none` is NULL.
unfoldable pub find_chunk_by_id : List Chunk → List ℕ → Option Chunk
find_chunk_by_id [] id = none
find_chunk_by_id (c ∷ cs) id = if same_text c.id id then some c else find_chunk_by_id cs id

-- The loop over the chunks.
unfoldable pub have_replicas : List Chunk → ℤ → Bool
have_replicas [] min_replicas = true
have_replicas (c ∷ cs) min_replicas =
    if ltb_ℤ (pos (location_count c)) min_replicas then false else have_replicas cs min_replicas

unfoldable pub verify_chunk_replicas : List Chunk → ℤ → Bool
verify_chunk_replicas chunks min_replicas =
    if (length chunks == 0) || ltb_ℤ min_replicas (pos 1)
    then false
    else have_replicas chunks min_replicas

-- What is filled: the sum of the sizes, the two integers whose quotient is the average, the least
-- and the greatest number of replicas. The sum of the replicas is an `int`, without its overflow.
pub record Statistics : Type 0 where
  pub total_size : ℕ
  pub replica_sum : ℕ
  pub chunk_count : ℕ
  pub min_replicas : ℕ
  pub max_replicas : ℕ

-- One turn of the loop.
unfoldable pub count_chunk : Statistics → Chunk → Statistics
count_chunk s c = record s {
  total_size = u64 (s.total_size + c.size);
  replica_sum = s.replica_sum + location_count c;
  min_replicas = if ltb (location_count c) s.min_replicas then location_count c else s.min_replicas;
  max_replicas = if ltb s.max_replicas (location_count c) then location_count c else s.max_replicas;
}

unfoldable pub count_chunks : Statistics → List Chunk → Statistics
count_chunks s [] = s
count_chunks s (c ∷ cs) = count_chunks (count_chunk s c) cs

-- `none` leaves the output parameters as they were.
unfoldable pub get_chunk_statistics : List Chunk → Option Statistics
get_chunk_statistics [] = none
get_chunk_statistics (c ∷ cs) = some (
    count_chunks
      (record {
        total_size = 0;
        replica_sum = 0;
        chunk_count = suc (length cs);
        min_replicas = location_count c;
        max_replicas = location_count c;
      })
      (c ∷ cs))
