-- ===== src/Chunker/ReconstructTests.antt =====
-- Runs of the reconstruction and of the sums over chunks, and the theorems about them at concrete
-- inputs.
use net_chunk.Base.{
  ◌≡◌, ◌↔◌, refl, arith, [], ◌∷◌, ◌++◌, true, false, none, some, success, chunk_integrity, take,
  drop, replicate, All,
}
use net_chunk.Libc.Text.{same_text}
use net_chunk.Libc.Files.{Closing}
use net_chunk.Crypto.Context.{pad_buffer, output, hash}
use net_chunk.Crypto.Compress.{transform}
use net_chunk.Crypto.Hex.{hash_compare}
use net_chunk.Chunker.Types.{Chunk}
use net_chunk.Chunker.Chunk.{chunk_init, chunk_set_data, verify_integrity}
use net_chunk.Chunker.File.{read_chunks}
use net_chunk.Chunker.Tests.{file, world, env, context, starts}
use net_chunk.Chunker.Reconstruct.{
  Qsort, sort_chunks_by_sequence, is_complete, reconstruct_file_init, write_chunks,
  reconstruct_file, verify_reconstructed_file,
}
use net_chunk.Chunker.ReconstructLaws.{IsIntact, stored, reconstruct_file_success}
use net_chunk.Chunker.RoundTrip.{reconstruct_file-read_chunks, verify_reconstructed_file_iff}
use net_chunk.Chunker.Stats.{Statistics, count_chunk, count_chunks, get_chunk_statistics}

-- `fclose` writes out all, and files can be removed.
abbrev closes : Closing
closes = record { written_out = λ bytes. bytes; removed = true }

abbrev first : Chunk
first = (chunk_set_data (chunk_init 0 2 0) (1 ∷ 2 ∷ []) true).1

abbrev second : Chunk
second = (chunk_set_data (chunk_init 1 1 0) (3 ∷ []) true).1

reconstruct_file-read_chunks_example :
    reconstruct_file none true closes (λ i. 100) (read_chunks 4 env context).0
    ≡ (success, some file)
reconstruct_file-read_chunks_example =
    reconstruct_file-read_chunks (b'/' ∷ b't' ∷ b'm' ∷ b'p' ∷ b'/' ∷ b'f' ∷ []) 2 world file context
      refl refl (omega arith) (omega arith) (omega arith) starts env (λ i. refl) none closes
      (λ i. 100) (λ bytes. refl) (λ i. omega arith)

writes :
    reconstruct_file none true closes (λ i. 100) (first ∷ second ∷ [])
    ≡ (success, some (1 ∷ 2 ∷ 3 ∷ []))
unfolding reconstruct_file write_chunks verify_integrity hash_compare same_text hash chunk_set_data
    chunk_init take output transform pad_buffer replicate drop
writes = refl

reconstruct_file_success_example :
    All IsIntact (first ∷ second ∷ [])
    × (some (1 ∷ 2 ∷ 3 ∷ []) ≡ some (stored (first ∷ second ∷ [])))
reconstruct_file_success_example =
    reconstruct_file_success closes (λ i. 100) none true (first ∷ second ∷ []) success
      (some (1 ∷ 2 ∷ 3 ∷ [])) writes (λ bytes. refl) refl

-- A chunk whose data has changed.
abbrev changed : Chunk
changed = record second { bytes = some (4 ∷ []) }

refuses :
    reconstruct_file (some (9 ∷ [])) true closes (λ i. 100) (first ∷ changed ∷ [])
    ≡ (chunk_integrity, none)
unfolding reconstruct_file write_chunks verify_integrity hash_compare same_text hash chunk_set_data
    chunk_init take output transform pad_buffer replicate drop
refuses = refl

-- In a directory that cannot be written, `unlink` fails and the first chunk stays.
abbrev stuck : Closing
stuck = record closes { removed = false }

-- A `qsort` that only turns the array around.
abbrev turn : Qsort
turn compare [] = []
turn compare (c ∷ cs) = turn compare cs ++ (c ∷ [])

sorts :
    reconstruct_file_init turn (record context.file_info { chunk_count = 2 }) (second ∷ first ∷ [])
    ≡ (success, first ∷ second ∷ [])
unfolding reconstruct_file_init sort_chunks_by_sequence is_complete chunk_set_data chunk_init
sorts = refl

verify_reconstructed_file_iff_example :
    (verify_reconstructed_file
        (some 5)
        (some (record { pieces = (1 ∷ 2 ∷ []) ∷ (3 ∷ 4 ∷ 5 ∷ []) ∷ []; failed = false }))
        context.file_info
      ≡ success)
    ↔ ((context.file_info.total_size ≡ 5) × (context.file_info.file_hash ≡ hash file))
verify_reconstructed_file_iff_example =
    verify_reconstructed_file_iff ((1 ∷ 2 ∷ []) ∷ (3 ∷ 4 ∷ 5 ∷ []) ∷ []) context.file_info
      (omega arith)

abbrev statistics : Statistics
statistics = record {
  total_size = 3;
  replica_sum = 0;
  chunk_count = 2;
  min_replicas = 0;
  max_replicas = 0;
}

sums : get_chunk_statistics (first ∷ second ∷ []) ≡ some statistics
unfolding get_chunk_statistics count_chunks count_chunk chunk_set_data chunk_init
sums = refl
