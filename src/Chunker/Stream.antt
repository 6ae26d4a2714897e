-- ===== src/Chunker/Stream.antt =====
-- The chunker of src/chunker.c: `netchunk_chunker_init`, `_next_chunk`, `_has_next`,
-- `_get_progress`, `_cleanup` and `read_file_chunk`. What the file system, the clock, `malloc` and
-- the random source answer are arguments.
use net_chunk.Base.{
  ℕ, ◌+◌, Bool, true, false, ◌&&◌, not, Option, none, some, List, [], ◌∷◌, ltb, leb, ◌==◌,
  if◌then◌else◌, length, take, drop, u32, u64, ErrorCode, success, invalid_argument, out_of_memory,
  ◌-◌, file_not_found, file_access, Result, ok, err,
}
use net_chunk.Crypto.Context.{Reads, hash_file}
use net_chunk.Chunker.Types.{Chunk, FileInfo, max_path_len}
use net_chunk.Chunker.Count.{calculate_chunk_count}
use net_chunk.Chunker.Chunk.{chunk_init, chunk_set_data, generate_chunk_id}

-- An open `FILE*`: the bytes that are still to come, and whether an error or the end of the file
-- stands behind them.
pub record Stream : Type 0 where
  pub rest : List ℕ
  pub broken : Bool

-- `netchunk_chunker_context_t`; `chunk_buffer` says whether the buffer is allocated.
pub record Context : Type 0 where
  pub input_file : Option Stream
  pub chunk_size : ℕ
  pub current_chunk_number : ℕ
  pub total_chunks : ℕ
  pub total_file_size : ℕ
  pub bytes_processed : ℕ
  pub chunk_buffer : Bool
  pub chunk_buffer_size : ℕ
  pub chunk_buffer_capacity : ℕ
  pub file_info : FileInfo
  pub start_time : ℕ
  pub finished : Bool

-- What the system answers in `netchunk_chunker_init`: the stream of `fopen`, the size of `stat`,
-- the reads of the hash function, `malloc`, and the time.
pub record InitWorld : Type 0 where
  pub opened : Option Stream
  pub stat_size : Option ℕ
  pub hash_reads : Option Reads
  pub allocated : Bool
  pub now : ℕ

-- The text behind the last slash: `name` is what stands behind the last one so far.
pub base_name : List ℕ → List ℕ → List ℕ
base_name name [] = name
base_name name (c ∷ s) = base_name (if c == b'/' then s else name) s

-- On an error the context is not used.
unfoldable pub chunker_init : List ℕ → ℕ → InitWorld → Result Context
unfolding base_name
chunker_init path chunk_size world =
    if chunk_size == 0 then err invalid_argument else (elim world.opened [
      | none ↦ err file_not_found
      | some stream ↦ (elim world.stat_size [
        | none ↦ err file_access
        | some size ↦ (elim (hash_file world.hash_reads) [
          | err e ↦ err e
          | ok file_hash ↦
              if not world.allocated
              then err out_of_memory
              else ok (record {
                input_file = some stream;
                chunk_size = chunk_size;
                current_chunk_number = 0;
                total_chunks = calculate_chunk_count size chunk_size;
                total_file_size = size;
                bytes_processed = 0;
                chunk_buffer = true;
                chunk_buffer_size = 0;
                chunk_buffer_capacity = chunk_size;
                file_info = record {
                  filename = take (max_path_len - 1) (base_name path path);
                  total_size = size;
                  created_timestamp = world.now;
                  last_accessed = world.now;
                  chunk_count = calculate_chunk_count size chunk_size;
                  file_hash = file_hash;
                  chunk_size = chunk_size;
                };
                start_time = world.now;
                finished = false;
              })
        ])
      ])
    ])

unfoldable pub chunker_cleanup : Context → Context
chunker_cleanup context = record context {
  input_file = none;
  chunk_buffer = false;
  chunk_buffer_capacity = 0;
  chunk_buffer_size = 0;
}

-- `fread` and the test of `feof` and `ferror`: the code, the bytes read, and the stream.
unfoldable pub read_file_chunk : Stream → ℕ → ErrorCode × List ℕ × Stream
read_file_chunk file buffer_size =
    let bytes = take buffer_size file.rest in
    let file' = record file { rest = drop buffer_size file.rest } in
    if (length bytes == 0) && ((length file.rest == 0) && file.broken)
    then (file_access, bytes, file')
    else (success, bytes, file')

-- What the system answers in one call of `netchunk_chunker_next_chunk`.
pub record Env : Type 0 where
  pub allocated : Bool
  pub random : List ℕ
  pub now : ℕ

-- The part behind `netchunk_chunk_set_data`: the identifier and the progress, or the error.
unfoldable pub finish_chunk : Env → Context → List ℕ → ErrorCode × Chunk → Result Chunk × Context
finish_chunk env context bytes (success, chunk) =
    let id =
      generate_chunk_id context.current_chunk_number context.file_info.file_hash env.random in
    let processed = u64 (context.bytes_processed + length bytes) in
    (
      ok (record chunk { id = id }),
      record context {
        current_chunk_number = u32 (context.current_chunk_number + 1);
        bytes_processed = processed;
        finished = if leb context.total_file_size processed then true else context.finished;
      },
    )
finish_chunk env context bytes (code, chunk) = (err code, context)

-- The part behind the read: the chunk of the bytes, or the end.
unfoldable pub make_chunk : Env → Context → List ℕ → Result Chunk × Context
make_chunk env context bytes =
    if length bytes == 0
    then (err file_not_found, record context { finished = true })
    else finish_chunk env context bytes (
        chunk_set_data (chunk_init context.current_chunk_number (length bytes) env.now) bytes
          env.allocated)

-- The chunk, and the context that the call leaves.
unfoldable pub next_chunk : Env → Context → Result Chunk × Context
next_chunk env context =
    if context.finished then (err file_not_found, context) else (elim context.input_file [
      | none ↦ (err file_not_found, context)
      | some file ↦
          if not context.chunk_buffer
          then (err invalid_argument, context)
          else let (code, bytes, file') = read_file_chunk file context.chunk_size in
            let context' = record context { input_file = some file' } in
            elim code [ success ↦ make_chunk env context' bytes | other ↦ (err other, context') ]
    ])

unfoldable pub has_next : Context → Bool
has_next context = not context.finished && ltb context.bytes_processed context.total_file_size

-- Chunks processed, chunks in all, bytes processed, bytes in all.
unfoldable pub get_progress : Context → ℕ × ℕ × ℕ × ℕ
get_progress context = (
  context.current_chunk_number, context.file_info.chunk_count, context.bytes_processed,
  context.total_file_size,
)
