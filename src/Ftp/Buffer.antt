-- ===== src/Ftp/Buffer.antt =====
-- The memory buffer of src/ftp_client.c: `netchunk_memory_buffer_init`, `_cleanup`, `_resize`,
-- `_append`, and the function that libcurl calls with the bytes of a transfer
-- (`ftp_write_callback`). Whether `malloc` and `realloc` succeed is an argument.
use net_chunk.Base.{
  ℕ, ◌+◌, ◌*◌, Bool, true, false, not, List, [], ◌∷◌, ◌++◌, ltb, ◌==◌, u64, if◌then◌else◌, length,
  take, ErrorCode, success, invalid_argument, out_of_memory, failed,
}

-- `netchunk_memory_buffer_t`: the first `size` bytes at `data`, which is NULL while the capacity
-- is 0.
pub record Buffer : Type 0 where
  pub bytes : List ℕ
  pub capacity : ℕ
  pub position : ℕ

unfoldable pub buffer_init : ℕ → Bool → ErrorCode × Buffer
buffer_init initial_capacity allocated =
    if initial_capacity == 0
    then (success, record { bytes = []; capacity = 0; position = 0 })
    else if not allocated
    then (out_of_memory, record { bytes = []; capacity = 0; position = 0 })
    else (success, record { bytes = []; capacity = initial_capacity; position = 0 })

unfoldable pub buffer_cleanup : Buffer → Buffer
buffer_cleanup buffer = record { bytes = []; capacity = 0; position = 0 }

-- `realloc` keeps what fits.
unfoldable pub buffer_resize : Buffer → ℕ → Bool → ErrorCode × Buffer
buffer_resize buffer new_capacity allocated =
    if new_capacity == 0
    then (invalid_argument, buffer)
    else if not allocated
    then (out_of_memory, buffer)
    else (
      success,
      record buffer { bytes = take new_capacity buffer.bytes; capacity = new_capacity },
    )

-- The capacity that holds `needed` bytes.
unfoldable pub grown_capacity : ℕ → ℕ → ℕ
grown_capacity capacity needed =
    if ltb (u64 (capacity * 2)) needed then u64 (needed + 4096) else u64 (capacity * 2)

-- The copy behind the test of the capacity.
abbrev pub copy_bytes : List ℕ → ErrorCode × Buffer → ErrorCode × Buffer
copy_bytes data_bytes (e, buffer) =
    if failed e
    then (e, buffer)
    else (success, record buffer { bytes = buffer.bytes ++ data_bytes })

unfoldable pub buffer_append : Buffer → List ℕ → Bool → ErrorCode × Buffer
buffer_append buffer data_bytes allocated =
    let needed = u64 (length buffer.bytes + length data_bytes) in
    if length data_bytes == 0
    then (invalid_argument, buffer)
    else if ltb buffer.capacity needed
    then copy_bytes data_bytes
        (buffer_resize buffer (grown_capacity buffer.capacity needed) allocated)
    else copy_bytes data_bytes (success, buffer)

-- The number of bytes taken, 0 for an error, and the buffer.
unfoldable pub write_callback : Buffer → List ℕ → Bool → ℕ × Buffer
write_callback buffer contents allocated =
    let (e, buffer') = buffer_append buffer contents allocated in
    if failed e then (0, buffer') else (length contents, buffer')

-- The calls of one transfer: each piece with the outcome of its `realloc`. libcurl ends a transfer
-- when a call takes fewer bytes than it was given.
unfoldable pub receive : Buffer → List (List ℕ × Bool) → Bool × Buffer
receive buffer [] = (true, buffer)
receive buffer ((piece, allocated) ∷ pieces) =
    let (taken, buffer') = write_callback buffer piece allocated in
    if not (taken == length piece) then (false, buffer') else receive buffer' pieces
