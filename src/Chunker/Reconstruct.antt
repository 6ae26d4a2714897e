-- ===== src/Chunker/Reconstruct.antt =====
-- The reconstruction of a file in src/chunker.c: `netchunk_reconstruct_file_init`,
-- `netchunk_reconstruct_file`, `netchunk_verify_reconstructed_file`, and the sort by sequence
-- number. `qsort`, the file system and the writes are arguments.
use net_chunk.Base.{
  ℕ, suc, Bool, true, false, not, Option, none, some, List, [], ◌∷◌, ◌++◌, ltb, leb, ◌==◌, ◌||◌,
  if◌then◌else◌, min, length, take, ErrorCode, success, invalid_argument, file_not_found,
  file_access, chunk_integrity, ok, err, failed,
}
use net_chunk.Base.Int.{ℤ, pos, negsuc}
use net_chunk.Crypto.Context.{Reads, hash_file}
use net_chunk.Crypto.Hex.{hash_compare}
use net_chunk.Libc.Files.{Closing, discarded}
use net_chunk.Chunker.Types.{Chunk, FileInfo}
use net_chunk.Chunker.Chunk.{verify_integrity}

unfoldable pub chunk_compare_by_sequence : Chunk → Chunk → ℤ
chunk_compare_by_sequence a b =
    if ltb a.sequence_number b.sequence_number
    then negsuc 0
    else if ltb b.sequence_number a.sequence_number
    then pos 1
    else pos 0

-- `qsort` with a comparison.
abbrev pub Qsort : Type 0
Qsort = (Chunk → Chunk → ℤ) → List Chunk → List Chunk

unfoldable pub sort_chunks_by_sequence : Qsort → List Chunk → List Chunk
sort_chunks_by_sequence qsort chunks =
    if leb (length chunks) 1 then chunks else qsort chunk_compare_by_sequence chunks

-- The chunks are numbered from `n` on.
unfoldable pub is_complete : ℕ → List Chunk → Bool
is_complete n [] = true
is_complete n (c ∷ cs) = if not (c.sequence_number == n) then false else is_complete (suc n) cs

-- The code, and the array as the call leaves it.
unfoldable pub reconstruct_file_init : Qsort → FileInfo → List Chunk → ErrorCode × List Chunk
reconstruct_file_init qsort info chunks =
    if (length chunks == 0) || not (length chunks == info.chunk_count)
    then (invalid_argument, chunks)
    else let sorted = sort_chunks_by_sequence qsort chunks in
      if is_complete 0 sorted then (success, sorted) else (invalid_argument, sorted)

-- The loop over the chunks: the code, and the file at the path, `none` when it is removed.
-- `accepted i` bounds what the `i`-th `fwrite` takes, `written` is what was taken so far.
unfoldable pub write_chunks : Closing → (ℕ → ℕ) → List ℕ → List Chunk → ErrorCode × Option (List ℕ)
write_chunks closing accepted written [] = (success, some (closing.written_out written))
write_chunks closing accepted written (c ∷ cs) = elim c.bytes [
  | none ↦ (invalid_argument, discarded closing written)
  | some bytes ↦
      if failed (verify_integrity c)
      then (verify_integrity c, discarded closing written)
      else if not (min (accepted 0) c.size == c.size)
      then (file_access, discarded closing (written ++ take (accepted 0) (take c.size bytes)))
      else write_chunks closing (λ i. accepted (suc i)) (written ++ take c.size bytes) cs
]

-- `before` is the file at the path before the call, `opened` whether `fopen` succeeds.
unfoldable pub reconstruct_file :
    Option (List ℕ) → Bool → Closing → (ℕ → ℕ) → List Chunk → ErrorCode × Option (List ℕ)
reconstruct_file before opened closing accepted chunks =
    if length chunks == 0
    then (invalid_argument, before)
    else if not opened
    then (file_access, before)
    else write_chunks closing accepted [] chunks

-- The size that `stat` answers, and the reads of the file for the hash.
unfoldable pub verify_reconstructed_file : Option ℕ → Option Reads → FileInfo → ErrorCode
verify_reconstructed_file stat_size reads info = elim stat_size [
  | none ↦ file_not_found
  | some size ↦ if not (size == info.total_size) then chunk_integrity else (elim (hash_file reads) [
    | err e ↦ e
    | ok computed ↦ if not (hash_compare info.file_hash computed) then chunk_integrity else success
  ])
]
