-- ===== src/Chunker/RoundTrip.antt =====
-- A file that `netchunk_chunker_next_chunk` cuts and `netchunk_reconstruct_file` writes again, and
-- the checks of `netchunk_reconstruct_file_init` and `netchunk_verify_reconstructed_file`.
use net_chunk.Base.{
  ℕ, zero, suc, ◌+◌, ◌-◌, ◌*◌, ◌^◌, ◌≤◌, ◌<◌, true, false, Option, some, List, [], ◌∷◌, ◌≡◌, ◌↔◌,
  arith, concat, length, get_elem?, success, ok,
}
use net_chunk.Libc.Text.{same_text_iff}
use net_chunk.Libc.Files.{Closing, Flushes}
use net_chunk.Crypto.Hex.{hash_compare}
use net_chunk.Crypto.Context.{hash}
use net_chunk.Crypto.Final.{hash_file-eq-hash}
use net_chunk.Chunker.Types.{Chunk, FileInfo}
use net_chunk.Chunker.Stream.{Env, InitWorld, chunker_init}
use net_chunk.Chunker.Stream
use net_chunk.Chunker.File.{read_chunks}
use net_chunk.Chunker.Whole.{read_chunks_whole}
use net_chunk.Chunker.Reconstruct.{
  Qsort, is_complete, reconstruct_file_init, reconstruct_file, verify_reconstructed_file,
}
use net_chunk.Chunker.ReconstructLaws.{reconstruct_file-AreCut, hash_compare_refl}

-- A file that is not empty, cut from the first call to the last and written with no write cut
-- short and written out by `fclose`, is written as it was. The file can be read to its end, `stat` answers its size, every
-- allocation succeeds, the sizes of the file and of a chunk add up to at most 2 ^ 64, and the
-- file has at most 2 ^ 32 - 1 chunks.
pub reconstruct_file-read_chunks :
    (path : List ℕ) (k : ℕ) (world : InitWorld) (file : List ℕ) (ctx : Stream.Context)
    → world.opened ≡ some (record { rest = file; broken = false })
    → world.stat_size ≡ some (length file)
    → length file + k ≤ 2 ^ 64
    → length file ≤ k * (2 ^ 32 - 1)
    → 0 < length file
    → chunker_init path k world ≡ ok ctx
    → (env : ℕ → Env) → ((i : ℕ) → (env i).allocated ≡ true)
    → (before : Option (List ℕ)) (closing : Closing) (accepted : ℕ → ℕ) → Flushes closing
    → ((i : ℕ) → k ≤ accepted i)
    → reconstruct_file before true closing accepted (read_chunks (suc ctx.total_chunks) env ctx).0
      ≡ (success, some file)
reconstruct_file-read_chunks path k world file ctx opened measured fits few some_left done env a
      before closing accepted flushes b =
    let small : length file < 2 ^ 64 = omega (arith, fits, few, some_left) in
    reconstruct_file-AreCut closing k accepted before file
      (read_chunks (suc ctx.total_chunks) env ctx).0 flushes some_left b
      (read_chunks_whole path k world file ctx opened measured small done env a fits few).0

is_complete_lem :
    (n : ℕ) (cs : List Chunk) (i : ℕ) (c : Chunk)
    → is_complete n cs ≡ true
    → get_elem? cs i ≡ some c
    → c.sequence_number ≡ n + i
unfolding is_complete
is_complete_lem n [] i c h e = cc
is_complete_lem n (d ∷ cs) zero c h e = ground arith
is_complete_lem n (d ∷ cs) (suc i) c h e =
    omega (arith, is_complete_lem (suc n) cs i c (ground arith) e)

-- Hashes that compare equal are equal.
compared : (a b : List ℕ) → hash_compare a b ≡ true → a ≡ b
unfolding hash_compare
compared a b e = (same_text_iff a b).0 (ground (arith, e))

-- When the call returns SUCCESS, there are as many chunks as the file's record says, at least
-- one, and in the array that it leaves the chunk at each index has that number, whatever `qsort`
-- does.
pub reconstruct_file_init_success :
    (qsort : Qsort) (info : FileInfo) (chunks sorted : List Chunk) (i : ℕ) (c : Chunk)
    → reconstruct_file_init qsort info chunks ≡ (success, sorted)
    → get_elem? sorted i ≡ some c
    → (length chunks ≡ info.chunk_count) × (0 < length chunks) × (c.sequence_number ≡ i)
unfolding reconstruct_file_init
reconstruct_file_init_success qsort info chunks sorted i c done here =
    let complete : is_complete 0 sorted ≡ true = ground arith in
    (ground arith, ground arith, omega (arith, is_complete_lem 0 sorted i c complete here))

-- A file whose reads are all returned passes the check exactly if the record holds its size and its
-- hash, whatever the sizes of the reads. The file has less than 2 ^ 61 bytes.
pub verify_reconstructed_file_iff :
    (pieces : List (List ℕ)) (info : FileInfo)
    → length (concat pieces) < 2 ^ 61
    → (verify_reconstructed_file
          (some (length (concat pieces)))
          (some (record { pieces = pieces; failed = false }))
          info
        ≡ success)
      ↔ ((info.total_size ≡ length (concat pieces)) × (info.file_hash ≡ hash (concat pieces)))
unfolding verify_reconstructed_file
verify_reconstructed_file_iff pieces info small =
    let hashed = hash_file-eq-hash pieces (omega (arith, small)) in
    (
      λ e. (
        ground (arith, e),
        compared info.file_hash (hash (concat pieces)) (ground (arith, hashed, e)),
      ),
      λ h. rw hashed (rw (h.0) (rw (h.1) (rw (hash_compare_refl (concat pieces)) (ground arith)))),
    )
