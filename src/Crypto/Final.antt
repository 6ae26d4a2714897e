-- ===== src/Crypto/Final.antt =====
-- `netchunk_sha256_final` and the hash functions against the digest of a whole message.
use mathlib.Core.List.{foldl-append}
use net_chunk.Base.{
  ℕ, ◌+◌, ◌-◌, ◌*◌, ◌%◌, ◌^◌, ◌≤◌, ◌<◌, List, [], ◌∷◌, ◌++◌, ◌≡◌, refl, sym, ap, ◌∙◌, arith,
  bit_and, length, drop, replicate, concat, All, IsBlock, foldl, ltb, false, Bool-cases, inl, inr,
  some, ok, copy_at, u32, u64, ◌>>>◌, length-append, length-drop, length-replicate, append-nil,
  append_assoc, All-append, concat-append,
}
use net_chunk.Crypto.Words.{uint32_to_bytes}
use net_chunk.Crypto.Compress.{HashState, transform}
use net_chunk.Crypto.Context.{
  Sha256, initial_state, init, update, update_all, pad_buffer, output, final, hash, hash_file,
}
use net_chunk.Crypto.Padding.{pad, suffix, length_field, digest, digest_of_blocks}
use net_chunk.Crypto.Streaming.{Represents, length-rest, init-Represents, update-Represents}
use net_chunk.Crypto.PadLaws.{
  length_bytes, store_length, last_blocks, last_blocks_lem, last_blocks_aligned, pad_roomy,
  pad_tight,
}

-- The end of `netchunk_sha256_final`: the length is stored and the block compressed.
abbrev finish : HashState × List ℕ → ℕ → List ℕ
finish p n = output (
    transform p.0 (
      copy_at (copy_at p.1 56 (uint32_to_bytes (u32 (n >>> 32)))) 60
        (uint32_to_bytes (u32 (bit_and n 0xffffffff)))))

length-bytes_of : (n : ℕ) → length (uint32_to_bytes n) ≡ 4
unfolding uint32_to_bytes
length-bytes_of n = refl

finish_lem :
    (s : HashState) (front spare : List ℕ) (n : ℕ)
    → length front ≡ 56
    → length spare ≡ 8
    → n < 2 ^ 64
    → finish (s, front ++ spare) n ≡ output (transform s (front ++ length_field n))
finish_lem s front spare n f h fits =
    ap (λ t. output (transform s t))
      (store_length front spare _ _ f h (length-bytes_of _) (length-bytes_of _)
        ∙ ap (λ t. front ++ t) (length_bytes n fits))

module _ (s : HashState) (rest spare : List ℕ) (n : ℕ) (fits : n < 2 ^ 64)
    (room : length rest + length spare ≡ 64) where
  abbrev marked : ℕ → List ℕ
  marked k = rest ++ (0x80 ∷ replicate k 0)

  length-marked : (k : ℕ) → length (marked k) ≡ length rest + 1 + k
  length-marked k =
      omega (arith, length-append rest (0x80 ∷ replicate k 0), length-replicate {A = ℕ} k 0)

  -- `netchunk_sha256_final` compresses the last blocks.
  finish_blocks :
      length rest < 64
      → finish (pad_buffer s (rest ++ spare) (length rest)) n
        ≡ output (foldl transform s (last_blocks rest (length_field n)))
  finish_blocks h = elim (Bool-cases (ltb 56 (length rest + 1))) [
    | inl tight ↦
        let filled = marked (63 - length rest) in
        rw tight (
          ap (λ p. finish p n) (pad_tight s rest spare (length rest) refl room tight)
          ∙ finish_lem (transform s filled) (replicate 56 0) (drop 56 filled) n
              (length-replicate 56 0)
              (omega (arith, length-drop 56 filled, length-marked (63 - length rest))) fits)
    | inr roomy ↦
        let some_left : length rest + 1 ≤ 56 = ground arith in
        rw roomy (
          ap (λ p. finish p n) (pad_roomy s rest spare (length rest) refl roomy)
          ∙ finish_lem s (marked (55 - length rest)) (drop (55 - length rest) (drop 1 spare)) n
              (omega (arith, length-marked (55 - length rest)))
              (omega (arith, length-drop (55 - length rest) (drop 1 spare), length-drop 1 spare))
              fits)
  ]

-- `netchunk_sha256_final` returns the digest of all the bytes that the context was given.
pub final-digest :
    (ctx : Sha256) (m : List ℕ)
    → length m * 8 < 2 ^ 64
    → Represents ctx m
    → (final ctx).0 ≡ digest m
unfolding final
final-digest ctx m fits r =
    enters
    ∙ finish_blocks ctx.state r.rest r.spare (length m * 8) fits r.room r.short
    ∙ ap output (
        ap (λ s. foldl transform s (last_blocks r.rest field)) r.hashed
        ∙ sym (foldl-append transform initial_state r.blocks (last_blocks r.rest field)))
    ∙ sym (digest_of_blocks m (r.blocks ++ last_blocks r.rest field) aligned padded)
  where
    field : List ℕ
    field = length_field (length m * 8)

    enters :
        (final ctx).0
        ≡ finish (pad_buffer ctx.state (r.rest ++ r.spare) (length r.rest)) (length m * 8)
    enters =
        let whole : u64 (ctx.count * 8) ≡ length m * 8 = omega (arith, fits, r.counted) in
        let at : ctx.count % 64 ≡ length r.rest = omega (arith, length-rest r, r.counted) in
        rw (whole, at)
          (ap (λ b. finish (pad_buffer ctx.state b (length r.rest)) (length m * 8)) r.held)

    aligned : All (IsBlock 64) (r.blocks ++ last_blocks r.rest field)
    aligned =
        All-append (IsBlock 64) r.blocks (last_blocks r.rest field) r.aligned
          (last_blocks_aligned r.rest field r.short refl)

    padded : pad m ≡ concat (r.blocks ++ last_blocks r.rest field)
    padded =
        unfold pad in
        ap (λ t. t ++ suffix (length m)) r.split
        ∙ append_assoc (concat r.blocks) r.rest (suffix (length m))
        ∙ ap (λ t. concat r.blocks ++ t) (last_blocks_lem r.rest field (length m) (length-rest r))
        ∙ sym (concat-append r.blocks (last_blocks r.rest field))

-- The hash of a message whose length in bits is below 2 ^ 64 is its digest: the message padded
-- as a whole, its blocks compressed in order.
pub hash-digest : (m : List ℕ) → length m * 8 < 2 ^ 64 → hash m ≡ digest m
unfolding hash
hash-digest m fits =
    final-digest (update init m) m fits (update-Represents init [] m (omega arith) init-Represents)

pub update_all-Represents :
    (ctx : Sha256) (m : List ℕ) (pieces : List (List ℕ))
    → length m + length (concat pieces) < 2 ^ 64
    → Represents ctx m
    → Represents (update_all ctx pieces) (m ++ concat pieces)
unfolding update_all
update_all-Represents ctx m [] fits r = rw append-nil r
update_all-Represents ctx m (p ∷ ps) fits r =
    let both = length-append p (concat ps) in
    rw (← append_assoc m p (concat ps)) (
      update_all-Represents (update ctx p) (m ++ p) ps (omega (arith, length-append m p, both))
        (update-Represents ctx m p (omega (arith, both)) r))

-- `netchunk_sha256_hash_file` of a file whose reads all succeed is the hash of its bytes,
-- however the reads cut them, if their length in bits is below 2 ^ 64.
pub hash_file-eq-hash :
    (pieces : List (List ℕ))
    → length (concat pieces) * 8 < 2 ^ 64
    → hash_file (some (record { pieces = pieces; failed = false })) ≡ ok (hash (concat pieces))
unfolding hash_file
hash_file-eq-hash pieces fits = ap ok (
    final-digest (update_all init pieces) (concat pieces) fits
      (update_all-Represents init [] pieces (omega arith) init-Represents)
    ∙ sym (hash-digest (concat pieces) fits))
