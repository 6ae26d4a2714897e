-- ===== src/Chunker/Whole.antt =====
-- From `netchunk_chunker_init` to the last chunk.
use net_chunk.Base.{
  ℕ, suc, ◌+◌, ◌-◌, ◌*◌, ◌^◌, ◌≤◌, ◌<◌, true, false, some, List, ◌≡◌, arith, inl, length,
  file_not_found, ok,
}
use native.Mathlib.Decide.{dec_lt}
use net_chunk.Chunker.Types.{Chunk}
use net_chunk.Chunker.Count.{
  calculate_chunk_count, calculate_chunk_count_lem, calculate_chunk_count-lt,
}
use net_chunk.Chunker.Stream.{Stream, Env, InitWorld, chunker_init}
use net_chunk.Chunker.Stream
use net_chunk.Chunker.Cut.{AreCut, contents, contents-AreCut, length-AreCut}
use net_chunk.Chunker.Cutting.{IsAt}
use net_chunk.Chunker.File.{read_chunks, read_chunks-AreCut}

mul-step : (k a b : ℕ) → a < b → a * k + k ≤ b * k
mul-step k a b h = grind arith

-- Two numbers of blocks of `k` that hold `n`, and not one block more, are equal.
one_quotient :
    (k : ℕ)
    → 0 < k
    → (n a b : ℕ) → (n ≤ a * k) × (a * k < n + k)
    → (n ≤ b * k) × (b * k < n + k)
    → a ≡ b
one_quotient k pos n a b p q = elim (dec_lt a b) [
  | yes less ↦ absurd (omega (arith, p, q, mul-step k a b less))
  | no not_less ↦ elim (dec_lt b a) [
    | yes more ↦ absurd (omega (arith, p, q, mul-step k b a more))
    | no not_more ↦ omega arith
  ]
]

module _ (path : List ℕ) (k : ℕ) (world : InitWorld) (file : List ℕ) (ctx : Stream.Context)
    (opened : world.opened ≡ some (record { rest = file; broken = false }))
    (measured : world.stat_size ≡ some (length file)) (small : length file < 2 ^ 64)
    (done : chunker_init path k world ≡ ok ctx) where
  -- What the call has set.
  chunker_init_fields :
      (0 < k)
      × (ctx.input_file ≡ some (record { rest = file; broken = false }))
      × (ctx.chunk_buffer ≡ true)
      × (ctx.chunk_size ≡ k)
      × (ctx.current_chunk_number ≡ 0)
      × (ctx.bytes_processed ≡ 0)
      × (ctx.total_file_size ≡ length file)
      × (ctx.finished ≡ false)
      × (ctx.total_chunks ≡ calculate_chunk_count (length file) k)
  unfolding chunker_init
  chunker_init_fields = ground (arith, opened, measured, done)

  chunker_init-IsAt : IsAt k 0 file ctx
  chunker_init-IsAt = record {
    open_file = chunker_init_fields.1;
    buffer = chunker_init_fields.2;
    chunked = chunker_init_fields.3;
    number = chunker_init_fields.4;
    left = omega (arith, chunker_init_fields);
    small = omega (arith, chunker_init_fields, small);
    ending = inl chunker_init_fields.7;
  }

  -- The announced count holds the file, and one chunk fewer does not.
  total_chunks_lem :
      length file + k ≤ 2 ^ 64
      → length file ≤ k * (2 ^ 32 - 1)
      → (length file ≤ k * ctx.total_chunks)
        × (ctx.total_chunks * k < length file + k)
        × (ctx.total_chunks < 2 ^ 32)
  total_chunks_lem fits few =
      let count = chunker_init_fields.8 in
      let bounds = calculate_chunk_count_lem (length file) k chunker_init_fields.0 fits few in
      rw count
        (omega (arith, bounds), omega (arith, bounds), calculate_chunk_count-lt (length file) k)

  -- A file that can be read to its end, whose size `stat` answers, with every allocation
  -- granted, is cut into exactly the announced number of chunks; they are its bytes cut in order
  -- at the chunk size, each with its own size, hash and number; and the call behind the last one
  -- returns FILE_NOT_FOUND. The sizes of the file and of a chunk add up to at most 2 ^ 64, and
  -- the file has at most 2 ^ 32 - 1 chunks.
  pub read_chunks_whole :
      (env : ℕ → Env)
      → ((i : ℕ) → (env i).allocated ≡ true)
      → length file + k ≤ 2 ^ 64
      → length file ≤ k * (2 ^ 32 - 1)
      → let (chunks, code, last) = read_chunks (suc ctx.total_chunks) env ctx in
        AreCut k 0 file chunks
        × (contents chunks ≡ file)
        × (length chunks ≡ ctx.total_chunks)
        × (code ≡ file_not_found)
  read_chunks_whole env a fits few = (cut, contents-AreCut k 0 file chunks cut, counted, run.1)
    where
      chunks : List Chunk
      chunks = (read_chunks (suc ctx.total_chunks) env ctx).0

      pos : 0 < k
      pos = chunker_init_fields.0

      count :
          (length file ≤ k * ctx.total_chunks)
          × (ctx.total_chunks * k < length file + k)
          × (ctx.total_chunks < 2 ^ 32)
      count = total_chunks_lem fits few

      run :
          AreCut k 0 file (read_chunks (suc ctx.total_chunks) env ctx).0
          × ((read_chunks (suc ctx.total_chunks) env ctx).1 ≡ file_not_found)
      run =
          read_chunks-AreCut k pos ctx.total_chunks (suc ctx.total_chunks) 0 env file ctx a
            chunker_init-IsAt count.0 (omega (arith, count)) (omega arith)

      cut : AreCut k 0 file chunks
      cut = run.0

      counted : length chunks ≡ ctx.total_chunks
      counted =
          one_quotient k pos (length file) (length chunks) ctx.total_chunks
            (length-AreCut k 0 file chunks pos cut) (omega (arith, count.0), count.1)
