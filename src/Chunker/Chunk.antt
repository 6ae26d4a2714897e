-- ===== src/Chunker/Chunk.antt =====
-- `netchunk_chunk_init`, `_cleanup`, `_set_data`, `_verify_integrity` and
-- `netchunk_generate_chunk_id` of src/chunker.c. The time and what `malloc` answers are arguments.
use net_chunk.Base.{
  ℕ, ◌/◌, ◌%◌, ◌^◌, Bool, true, false, none, some, List, [], ◌++◌, ◌==◌, if◌then◌else◌, not, length,
  take, get_or, replicate, ErrorCode, success, invalid_argument, out_of_memory, chunk_integrity,
}
use net_chunk.Crypto.Context
use net_chunk.Crypto.Hex.{hex_byte, hash_compare}
use net_chunk.Chunker.Types.{Chunk}

unfoldable pub chunk_init : ℕ → ℕ → ℕ → Chunk
chunk_init sequence_number data_size now = record {
  id = [];
  hash = replicate 32 0;
  size = data_size;
  sequence_number = sequence_number;
  created_timestamp = now;
  locations = [];
  bytes = none;
  data_owned = false;
}

-- Data that is not owned stays in place.
unfoldable pub chunk_cleanup : Chunk → Chunk
chunk_cleanup chunk = record chunk {
  bytes = if chunk.data_owned then none else chunk.bytes;
  data_owned = false;
  size = 0;
}

-- `bytes` is `data[0..data_size)`. The hash of data that is there cannot fail.
unfoldable pub chunk_set_data : Chunk → List ℕ → Bool → ErrorCode × Chunk
chunk_set_data chunk bytes allocated =
    if length bytes == 0
    then (invalid_argument, chunk)
    else if not allocated
    then (out_of_memory, record chunk { bytes = none })
    else (
      success,
      record chunk {
        bytes = some bytes;
        size = length bytes;
        data_owned = true;
        hash = Context.hash bytes;
      },
    )

-- The first `size` bytes are hashed.
unfoldable pub verify_integrity : Chunk → ErrorCode
verify_integrity chunk = elim chunk.bytes [
  | none ↦ invalid_argument
  | some bytes ↦
      if hash_compare chunk.hash (Context.hash (take chunk.size bytes))
      then success
      else chunk_integrity
]

-- `%08x` of a `uint32_t`.
unfoldable pub hex_word : ℕ → List ℕ
hex_word n =
    hex_byte (n / 2 ^ 24 % 256)
    ++ (hex_byte (n / 2 ^ 16 % 256) ++ (hex_byte (n / 2 ^ 8 % 256) ++ hex_byte (n % 256)))

-- `snprintf` keeps the first 16 characters. The random bytes are an argument: asked for 8 bytes,
-- `netchunk_generate_random_bytes` always gives them, from the system or from `rand`.
unfoldable pub generate_chunk_id : ℕ → List ℕ → List ℕ → List ℕ
generate_chunk_id sequence_number file_hash random = take 16 (
    hex_word sequence_number
    ++ (hex_byte (get_or file_hash 0 0)
        ++ (hex_byte (get_or file_hash 1 0)
            ++ (hex_byte (get_or random 0 0)
                ++ (hex_byte (get_or random 1 0)
                    ++ (hex_byte (get_or random 2 0) ++ hex_byte (get_or random 3 0)))))))
