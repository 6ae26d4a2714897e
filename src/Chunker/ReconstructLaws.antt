-- ===== src/Chunker/ReconstructLaws.antt =====
-- `netchunk_reconstruct_file` of src/chunker.c: what it writes, and when.
use net_chunk.Base.{
  ℕ, suc, ◌≤◌, ◌<◌, Bool, true, Option, none, some, List, [], ◌∷◌, ◌++◌, ◌≡◌, refl, ap, ◌∙◌, arith,
  ◌==◌, if◌then◌else◌, min, length, take, drop, length-take, take_all, take-append-drop, All,
  append_assoc, append-nil, Option-cases, inl, inr, ErrorCode, success, failed_cases,
}
use net_chunk.Libc.Files.{Closing, Flushes}
use net_chunk.Libc.Text.{same_text_refl}
use net_chunk.Crypto.Context
use net_chunk.Crypto.Context.{final, init, update, output}
use net_chunk.Crypto.Words.{uint32_to_bytes}
use net_chunk.Crypto.Hex.{hash_compare}
use net_chunk.Chunker.Types.{Chunk}
use net_chunk.Chunker.Chunk.{verify_integrity}
use net_chunk.Chunker.Cut.{AreCut, IsPiece, bytes_of}
use net_chunk.Chunker.Reconstruct.{write_chunks, reconstruct_file}

pub length-hash : (bytes : List ℕ) → length (Context.hash bytes) ≡ 32
unfolding Context.hash final output uint32_to_bytes
length-hash bytes = refl

-- A hash is equal to itself.
pub hash_compare_refl :
    (bytes : List ℕ) → hash_compare (Context.hash bytes) (Context.hash bytes) ≡ true
unfolding hash_compare
hash_compare_refl bytes = ground (arith, length-hash bytes, same_text_refl (Context.hash bytes))

-- A piece of a file is intact, and what is written of it is its bytes.
pub piece_intact :
    (n : ℕ) (bytes : List ℕ) (c : Chunk)
    → IsPiece n bytes c
    → (verify_integrity c ≡ success) × (take c.size bytes ≡ bytes)
unfolding verify_integrity
piece_intact n bytes c p =
    let whole : take c.size bytes ≡ bytes = take_all c.size bytes (omega (arith, p.sized)) in
    (rw p.held (rw p.hashed (rw whole (rw (hash_compare_refl bytes) refl))), whole)

-- What a call writes of a chunk.
abbrev pub stored : List Chunk → List ℕ
stored [] = []
stored (c ∷ cs) = take c.size (bytes_of c.bytes) ++ stored cs

abbrev pub IsIntact : Chunk → Type 0
IsIntact c = verify_integrity c ≡ success

module _ (closing : Closing) where
  write_chunks-AreCut :
      (k n : ℕ) (accepted : ℕ → ℕ) (written rest : List ℕ) (cs : List Chunk)
      → ((i : ℕ) → k ≤ accepted i)
      → AreCut k n rest cs
      → write_chunks closing accepted written cs
        ≡ (success, some (closing.written_out (written ++ rest)))
  unfolding write_chunks
  write_chunks-AreCut k n accepted written rest [] a cut = rw cut (rw (append-nil written) refl)
  write_chunks-AreCut k n accepted written rest (c ∷ cs) a cut =
      let here = piece_intact n (take k rest) c cut.1 in
      let room : (min (accepted 0) c.size == c.size) ≡ true =
        ground (arith, a 0, cut.1.sized, length-take k rest) in
      rw (cut.1.held) (
        rw (here.0) (
          rw room (
            rw (here.1) (
              write_chunks-AreCut k (suc n) (λ i. accepted (suc i)) (written ++ take k rest)
                (drop k rest) cs (λ i. a (suc i)) cut.2
              ∙ ap (λ t. (success, some (closing.written_out t)))
                  (append_assoc written (take k rest) (drop k rest)
                    ∙ ap (λ t. written ++ t) (take-append-drop k rest))))))

  -- A call that succeeds has gone through its first chunk.
  write_chunks_first :
      (accepted : ℕ → ℕ) (written : List ℕ) (c : Chunk) (cs : List Chunk) (file : Option (List ℕ))
      → write_chunks closing accepted written (c ∷ cs) ≡ (success, file)
      → IsIntact c
        × (write_chunks closing
              (λ i. accepted (suc i))
              (written ++ take c.size (bytes_of c.bytes))
              cs
            ≡ (success, file))
  unfolding write_chunks
  write_chunks_first accepted written c cs file done = elim (Option-cases c.bytes) [
    | inl missing ↦ ground arith
    | inr (bytes, held) ↦ elim (failed_cases (verify_integrity c)) [
      | inl intact ↦ ground arith
      | inr bad ↦ ground arith
    ]
  ]

  write_chunks_success :
      (accepted : ℕ → ℕ) (written : List ℕ) (cs : List Chunk) (file : Option (List ℕ))
      → write_chunks closing accepted written cs ≡ (success, file)
      → All IsIntact cs × (file ≡ some (closing.written_out (written ++ stored cs)))
  unfolding write_chunks
  write_chunks_success accepted written [] file done = (tt, rw (append-nil written) (ground arith))
  write_chunks_success accepted written (c ∷ cs) file done =
      let (intact, later) = write_chunks_first accepted written c cs file done in
      let piece = take c.size (bytes_of c.bytes) in
      let rest = write_chunks_success (λ i. accepted (suc i)) (written ++ piece) cs file later in
      (
        (intact, rest.0),
        rest.1 ∙ ap (λ t. some (closing.written_out t)) (append_assoc written piece (stored cs)),
      )

  -- The file is removed, or, where that fails, what `fclose` wrote out of a beginning of the bytes.
  abbrev pub IsLeft : List ℕ → Option (List ℕ) → Type 0
  IsLeft bytes file =
      (partly : List ℕ) × (rest : List ℕ) × (bytes ≡ partly ++ rest)
      × (file ≡ (if closing.removed then none else some (closing.written_out partly)))

  -- The chunks of a file that is not empty, written with no write cut short, are the file.
  pub reconstruct_file-AreCut :
      (k : ℕ) (accepted : ℕ → ℕ) (before : Option (List ℕ)) (file : List ℕ) (cs : List Chunk)
      → Flushes closing
      → 0 < length file
      → ((i : ℕ) → k ≤ accepted i)
      → AreCut k 0 file cs
      → reconstruct_file before true closing accepted cs ≡ (success, some file)
  unfolding reconstruct_file
  reconstruct_file-AreCut k accepted before file [] flushes some_left a cut =
      absurd (omega (arith, some_left, ap length cut))
  reconstruct_file-AreCut k accepted before file (c ∷ cs) flushes some_left a cut =
      ground (arith, write_chunks-AreCut k 0 accepted [] file (c ∷ cs) a cut)
      ∙ ap (λ t. (success, some t)) (flushes file)

module _ (closing : Closing) (accepted : ℕ → ℕ) (before : Option (List ℕ)) (opened : Bool)
    (cs : List Chunk) (code : ErrorCode) (file : Option (List ℕ))
    (done : reconstruct_file before opened closing accepted cs ≡ (code, file)) where
  -- When the call returns SUCCESS, every chunk passed the integrity check, and the file at the
  -- path holds the chunks' bytes, each up to its size, in the order of the array, if `fclose`, whose
  -- result the call ignores, writes out all that `fwrite` took.
  pub reconstruct_file_success :
      Flushes closing → code ≡ success → All IsIntact cs × (file ≡ some (stored cs))
  unfolding reconstruct_file
  reconstruct_file_success flushes e =
      let (intact, held) =
        write_chunks_success closing accepted [] cs file (ground (arith, done, e)) in
      (intact, held ∙ ap some (flushes (stored cs)))
