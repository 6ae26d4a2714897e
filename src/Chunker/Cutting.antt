-- ===== src/Chunker/Cutting.antt =====
-- One call of `netchunk_chunker_next_chunk` on a file that can be read to its end.
use net_chunk.Base.{
  ℕ, suc, ◌+◌, ◌-◌, ◌^◌, ◌<◌, true, false, some, List, [], ◌≡◌, ◌⊎◌, refl, ap, ◌∙◌, arith, leb,
  ◌==◌, if◌then◌else◌, Bool-cases, inl, inr, length, take, drop, length-take, length-drop,
  nil_of_length, min, u32, u64, success, file_not_found, ok, err,
}
use net_chunk.Crypto.Context
use net_chunk.Chunker.Types.{Chunk}
use net_chunk.Chunker.Cut.{IsPiece}
use net_chunk.Chunker.Chunk.{chunk_init, chunk_set_data, generate_chunk_id}
use net_chunk.Chunker.Stream.{
  Stream, Env, read_file_chunk, finish_chunk, make_chunk, next_chunk, has_next,
}
use net_chunk.Chunker.Stream

-- The context stands at the bytes `rest` of a file that can be read to its end.
pub record IsAt (k n : ℕ) (rest : List ℕ) (ctx : Stream.Context) : Type 0 where
  pub open_file : ctx.input_file ≡ some (record { rest = rest; broken = false })
  pub buffer : ctx.chunk_buffer ≡ true
  pub chunked : ctx.chunk_size ≡ k
  pub number : ctx.current_chunk_number ≡ n
  pub left : ctx.bytes_processed + length rest ≡ ctx.total_file_size
  pub small : ctx.total_file_size < 2 ^ 64
  pub ending : (ctx.finished ≡ false) ⊎ (rest ≡ [])

-- Data that is there is stored, if it can be allocated.
chunk_set_data_lem :
    (chunk : Chunk) (bytes : List ℕ)
    → 0 < length bytes
    → chunk_set_data chunk bytes true ≡ (
      success,
      record chunk {
        bytes = some bytes;
        size = length bytes;
        data_owned = true;
        hash = Context.hash bytes;
      },
    )
unfolding chunk_set_data
chunk_set_data_lem chunk bytes h = let full : (length bytes == 0) ≡ false = ground arith in rw full

module _ (env : Env) (ctx : Stream.Context) where
  -- The chunk made of these bytes, and the context behind them.
  abbrev pub piece : List ℕ → Chunk
  piece bytes = record {
    id = generate_chunk_id ctx.current_chunk_number ctx.file_info.file_hash env.random;
    hash = Context.hash bytes;
    size = length bytes;
    sequence_number = ctx.current_chunk_number;
    created_timestamp = env.now;
    locations = [];
    bytes = some bytes;
    data_owned = true;
  }

  abbrev pub behind : List ℕ → Stream.Context
  behind bytes =
      let processed = u64 (ctx.bytes_processed + length bytes) in
      record ctx {
        current_chunk_number = u32 (ctx.current_chunk_number + 1);
        bytes_processed = processed;
        finished = if leb ctx.total_file_size processed then true else ctx.finished;
      }

  make_chunk_lem :
      (bytes : List ℕ)
      → env.allocated ≡ true
      → 0 < length bytes
      → make_chunk env ctx bytes ≡ (ok (piece bytes), behind bytes)
  unfolding make_chunk finish_chunk chunk_init
  make_chunk_lem bytes a h =
      let full : (length bytes == 0) ≡ false = ground arith in
      let fresh = chunk_init ctx.current_chunk_number (length bytes) env.now in
      rw full (
        ap (λ t. finish_chunk env ctx bytes (chunk_set_data fresh bytes t)) a
        ∙ ap (finish_chunk env ctx bytes) (chunk_set_data_lem fresh bytes h))

make_chunk_nil :
    (env : Env) (ctx : Stream.Context) (bytes : List ℕ)
    → length bytes ≡ 0
    → (make_chunk env ctx bytes).0 ≡ err file_not_found
unfolding make_chunk
make_chunk_nil env ctx bytes h = let empty : (length bytes == 0) ≡ true = ground arith in rw empty

read_file_chunk_lem :
    (rest : List ℕ) (k : ℕ)
    → read_file_chunk (record { rest = rest; broken = false }) k
      ≡ (success, take k rest, record { rest = drop k rest; broken = false })
unfolding read_file_chunk
read_file_chunk_lem rest k = ground arith

module _ (env : Env) (allocates : env.allocated ≡ true) (k n : ℕ) (pos : 0 < k) (rest : List ℕ)
    (ctx : Stream.Context) (at : IsAt k n rest ctx) where
  abbrev pub moved : Stream.Context
  moved = record ctx { input_file = some (record { rest = drop k rest; broken = false }) }

  next_chunk-eq : ctx.finished ≡ false → next_chunk env ctx ≡ make_chunk env moved (take k rest)
  unfolding next_chunk
  next_chunk-eq f = ground (arith, at.open_file, at.buffer, at.chunked, read_file_chunk_lem rest k)

  -- Bytes are left: the call gives the next piece, and stands behind it.
  pub next_chunk_step :
      0 < length rest
      → next_chunk env ctx ≡ (ok (piece env moved (take k rest)), behind env moved (take k rest))
  next_chunk_step h =
      let open_still : ctx.finished ≡ false = ground (arith, at.ending) in
      next_chunk-eq open_still
      ∙ make_chunk_lem env moved (take k rest) allocates (omega (arith, length-take k rest))

  pub piece-IsPiece : IsPiece n (take k rest) (piece env moved (take k rest))
  piece-IsPiece = record {
    held = refl;
    sized = refl;
    hashed = refl;
    placed = at.number;
    owned = refl;
  }

  pub behind-IsAt :
      0 < length rest
      → n + 1 < 2 ^ 32
      → IsAt k (suc n) (drop k rest) (behind env moved (take k rest))
  behind-IsAt h room = record {
    open_file = refl;
    buffer = at.buffer;
    chunked = at.chunked;
    number = omega (arith, at.number, room);
    left = omega (arith, at.left, at.small, length-take k rest, length-drop k rest);
    small = at.small;
    ending = elim (Bool-cases (leb ctx.total_file_size processed)) [
      | inl over ↦
          inr (nil_of_length (drop k rest) (ground (arith, at.left, at.small, taken, dropped)))
      | inr under ↦ rw under (inl (ground (arith, at.ending)))
    ];
  }
    where
      processed : ℕ
      processed = u64 (ctx.bytes_processed + length (take k rest))

      taken : length (take k rest) ≡ min k (length rest)
      taken = length-take k rest

      dropped : length (drop k rest) ≡ length rest - k
      dropped = length-drop k rest

  -- Nothing is left: the call says so.
  pub next_chunk_end : rest ≡ [] → (next_chunk env ctx).0 ≡ err file_not_found
  next_chunk_end e = elim (Bool-cases ctx.finished) [
    | inl over ↦ unfold next_chunk in rw over
    | inr reading ↦
        ap (λ t. t.0) (next_chunk-eq reading)
        ∙ make_chunk_nil env moved (take k rest) (omega (arith, ap length e, length-take k rest))
  ]
