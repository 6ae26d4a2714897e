-- ===== src/Chunker/File.antt =====
-- The loop of calls of `netchunk_chunker_next_chunk` over the rest of a file.
use net_chunk.Base.{
  ℕ, zero, suc, ◌+◌, ◌*◌, ◌^◌, ◌≤◌, ◌<◌, true, List, [], ◌∷◌, ◌≡◌, refl, sym, arith, ◌==◌,
  Bool-cases, inl, inr, length, take, drop, length-drop, nil_of_length, ErrorCode, success,
  file_not_found, Result, ok, err,
}
use mathlib.Core.Path.{subst}
use net_chunk.Chunker.Types.{Chunk}
use net_chunk.Chunker.Stream.{Env, next_chunk}
use net_chunk.Chunker.Stream
use net_chunk.Chunker.Cut.{AreCut}
use net_chunk.Chunker.Cutting.{
  IsAt, behind, moved, next_chunk_step, piece-IsPiece, behind-IsAt, next_chunk_end,
}

-- One turn: an error ends the loop, a chunk comes before those of the later turns.
abbrev Loop : Type 0
Loop = List Chunk × ErrorCode × Stream.Context

abbrev keep_chunk : Result Chunk × Stream.Context → (Stream.Context → Loop) → Loop
keep_chunk (err e, context) later = ([], e, context)
keep_chunk (ok chunk, context) later =
    let (chunks, e, last) = later context in (chunk ∷ chunks, e, last)

-- The calls `while (next_chunk(...) == SUCCESS)`: the chunks, the code that ended the loop, and
-- the context. The first argument bounds the calls.
unfoldable pub read_chunks : ℕ → (ℕ → Env) → Stream.Context → Loop
read_chunks zero env context = ([], success, context)
read_chunks (suc fuel) env context =
    keep_chunk (next_chunk (env 0) context) (read_chunks fuel (λ n. env (suc n)))

keep_chunk_err :
    (r : Result Chunk × Stream.Context) (later : Stream.Context → Loop) (e : ErrorCode)
    → r.0 ≡ err e
    → ((keep_chunk r later).0 ≡ []) × ((keep_chunk r later).1 ≡ e)
keep_chunk_err (err d, context) later e h = (refl, cc)
keep_chunk_err (ok chunk, context) later e h = cc

module _ (k : ℕ) (pos : 0 < k) where
  at_end :
      (fuel n : ℕ) (env : ℕ → Env) (rest : List ℕ) (ctx : Stream.Context)
      → (env 0).allocated ≡ true
      → IsAt k n rest ctx
      → length rest ≡ 0
      → AreCut k n rest (read_chunks (suc fuel) env ctx).0
        × ((read_chunks (suc fuel) env ctx).1 ≡ file_not_found)
  unfolding read_chunks
  at_end fuel n env rest ctx a at h =
      let empty : rest ≡ [] = nil_of_length rest h in
      let over =
        keep_chunk_err (next_chunk (env 0) ctx) (read_chunks fuel (λ i. env (suc i))) file_not_found
          (next_chunk_end (env 0) a k n pos rest ctx at empty) in
      (subst (AreCut k n rest) (sym over.0) empty, over.1)

  -- One more chunk, before those of the later turns.
  before :
      (fuel n : ℕ) (env : ℕ → Env) (rest : List ℕ) (ctx : Stream.Context)
      (a : (env 0).allocated ≡ true) (at : IsAt k n rest ctx)
      → 0 < length rest
      → let next = behind (env 0) (moved (env 0) a k n pos rest ctx at) (take k rest) in
        let tail = read_chunks fuel (λ i. env (suc i)) next in
        AreCut k (suc n) (drop k rest) tail.0 × (tail.1 ≡ file_not_found)
        → AreCut k n rest (read_chunks (suc fuel) env ctx).0
          × ((read_chunks (suc fuel) env ctx).1 ≡ file_not_found)
  unfolding read_chunks
  before fuel n env rest ctx a at h (cut, ends) =
      subst {A = Result Chunk × Stream.Context}
        (λ r.
          let out = keep_chunk r (read_chunks fuel (λ i. env (suc i))) in
          AreCut k n rest out.0 × (out.1 ≡ file_not_found))
        (sym (next_chunk_step (env 0) a k n pos rest ctx at h))
        ((h, piece-IsPiece (env 0) a k n pos rest ctx at, cut), ends)

  -- `turns` more chunks hold the rest, and one call more meets the end.
  pub read_chunks-AreCut :
      (turns fuel n : ℕ) (env : ℕ → Env) (rest : List ℕ) (ctx : Stream.Context)
      → ((i : ℕ) → (env i).allocated ≡ true)
      → IsAt k n rest ctx
      → length rest ≤ k * turns
      → n + turns < 2 ^ 32
      → turns < fuel
      → AreCut k n rest (read_chunks fuel env ctx).0
        × ((read_chunks fuel env ctx).1 ≡ file_not_found)
  read_chunks-AreCut turns zero n env rest ctx a at fits small enough = absurd (omega arith)
  read_chunks-AreCut zero (suc fuel) n env rest ctx a at fits small enough =
      at_end fuel n env rest ctx (a 0) at (omega (arith, fits))
  read_chunks-AreCut (suc turns) (suc fuel) n env rest ctx a at fits small enough =
      elim (Bool-cases (length rest == 0)) [
        | inl none_left ↦ at_end fuel n env rest ctx (a 0) at (ground (arith, none_left))
        | inr some_left ↦
            let h : 0 < length rest = ground (arith, some_left) in
            before fuel n env rest ctx (a 0) at h (
              read_chunks-AreCut turns fuel (suc n) (λ i. env (suc i)) (drop k rest)
                (behind (env 0) (moved (env 0) (a 0) k n pos rest ctx at) (take k rest))
                (λ i. a (suc i))
                (behind-IsAt (env 0) (a 0) k n pos rest ctx at h (omega (arith, small)))
                (omega (arith, fits, length-drop k rest)) (omega (arith, small))
                (omega (arith, enough)))
      ]
