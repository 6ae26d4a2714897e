-- ===== src/Crypto/PadLaws.antt =====
-- The last blocks of `netchunk_sha256_final` against those of a padded message.
use net_chunk.Base.{
  ℕ, ◌+◌, ◌-◌, ◌%◌, ◌^◌, ◌<◌, List, [], ◌∷◌, ◌++◌, ◌≡◌, refl, sym, ap, ◌∙◌, arith, bit_and, length,
  drop, replicate, concat, All, IsBlock, ltb, true, false, Bool-cases, inl, inr, if◌then◌else◌,
  copy_at, replicate-add, u32, ◌>>>◌, length-append, length-drop, drop_all, length-replicate,
  append-nil, append_assoc, bit_and_mask, copy_at_end, copy_at_fill,
}
use net_chunk.Crypto.Words.{uint32_to_bytes}
use net_chunk.Crypto.Compress.{HashState, transform}
use net_chunk.Crypto.Context.{pad_buffer}
use net_chunk.Crypto.Padding.{zeros, length_field}

-- The two words that are stored are the length's eight bytes.
pub length_bytes :
    (n : ℕ)
    → n < 2 ^ 64
    → uint32_to_bytes (u32 (n >>> 32)) ++ uint32_to_bytes (u32 (bit_and n 0xffffffff))
      ≡ length_field n
unfolding uint32_to_bytes
length_bytes n h = rw (bit_and_mask 32 n) (ground arith)

length-field : (n : ℕ) → length (length_field n) ≡ 8
length-field n = refl

-- The two copies at the end of the buffer.
pub store_length :
    (front spare high low : List ℕ)
    → length front ≡ 56
    → length spare ≡ 8
    → length high ≡ 4
    → length low ≡ 4
    → copy_at (copy_at (front ++ spare) 56 high) 60 low ≡ front ++ (high ++ low)
store_length front spare high low f s h l =
    ap (λ t. copy_at t 60 low)
      (copy_at_end front spare high 56 f ∙ sym (append_assoc front high (drop (length high) spare)))
    ∙ copy_at_fill (front ++ high) (drop (length high) spare) low 60
        (omega (arith, length-append front high)) (omega (arith, length-drop (length high) spare))
    ∙ append_assoc front high low

-- The mark and `n` zeros behind the pending bytes.
store_mark :
    (rest spare : List ℕ) (pos n : ℕ)
    → length rest ≡ pos
    → copy_at (copy_at (rest ++ spare) pos (0x80 ∷ [])) (pos + 1) (replicate n 0)
      ≡ (rest ++ (0x80 ∷ replicate n 0)) ++ drop n (drop 1 spare)
store_mark rest spare pos n e =
    ap (λ t. copy_at t (pos + 1) (replicate n 0))
      (copy_at_end rest spare (0x80 ∷ []) pos e
        ∙ sym (append_assoc rest (0x80 ∷ []) (drop 1 spare)))
    ∙ copy_at_end (rest ++ (0x80 ∷ [])) (drop 1 spare) (replicate n 0) (pos + 1)
        (omega (arith, length-append rest (0x80 ∷ [])))
    ∙ ap (λ k. (rest ++ (0x80 ∷ [])) ++ (replicate n 0 ++ drop k (drop 1 spare)))
        (length-replicate n 0)
    ∙ simp append_assoc

-- The last one or two blocks, from the pending bytes and the length's eight bytes.
abbrev pub last_blocks : List ℕ → List ℕ → List (List ℕ)
last_blocks rest field =
    if ltb 56 (length rest + 1)
    then (rest ++ (0x80 ∷ replicate (63 - length rest) 0)) ∷ (replicate 56 0 ++ field) ∷ []
    else (rest ++ (0x80 ∷ replicate (55 - length rest) 0) ++ field) ∷ []

-- The message's last bytes and the padding are those blocks.
pub last_blocks_lem :
    (rest field : List ℕ) (n : ℕ)
    → length rest ≡ n % 64
    → rest ++ (0x80 ∷ (zeros n ++ field)) ≡ concat (last_blocks rest field)
last_blocks_lem rest field n e = elim (Bool-cases (ltb 56 (length rest + 1))) [
  | inl tight ↦
      let many : (119 - n % 64) % 64 ≡ 63 - length rest + 56 = ground (arith, e, tight) in
      rw (tight, many, replicate-add {A = ℕ} (63 - length rest) 56 0)
        (simp (append_assoc, append-nil))
  | inr roomy ↦
      let many : (119 - n % 64) % 64 ≡ 55 - length rest = ground (arith, e, roomy) in
      rw (roomy, many) (simp (append_assoc, append-nil))
]

pub last_blocks_aligned :
    (rest field : List ℕ)
    → length rest < 64
    → length field ≡ 8
    → All (IsBlock 64) (last_blocks rest field)
last_blocks_aligned rest field h e = elim (Bool-cases (ltb 56 (length rest + 1))) [
  | inl tight ↦ rw tight (
    omega (
      arith,
      length-append rest (0x80 ∷ replicate (63 - length rest) 0),
      length-replicate {A = ℕ} (63 - length rest) 0,
    ),
    (omega (arith, length-append (replicate 56 0) field, length-replicate {A = ℕ} 56 0), tt),
  )
  | inr roomy ↦ rw roomy (
    ground (
      arith,
      length-append (rest ++ (0x80 ∷ replicate (55 - length rest) 0)) field,
      length-append rest (0x80 ∷ replicate (55 - length rest) 0),
      length-replicate {A = ℕ} (55 - length rest) 0,
    ),
    tt,
  )
]

-- The padded block in the buffer, before the length, and the state so far.
pub pad_roomy :
    (s : HashState) (rest spare : List ℕ) (q : ℕ)
    → length rest ≡ q
    → ltb 56 (q + 1) ≡ false
    → pad_buffer s (rest ++ spare) q
      ≡ (s, (rest ++ (0x80 ∷ replicate (55 - q) 0)) ++ drop (55 - q) (drop 1 spare))
unfolding pad_buffer
pad_roomy s rest spare q e h =
    let same : 56 - (q + 1) ≡ 55 - q = omega arith in
    rw (h, same) (ap (λ t. (s, t)) (store_mark rest spare q (55 - q) e))

pub pad_tight :
    (s : HashState) (rest spare : List ℕ) (q : ℕ)
    → length rest ≡ q
    → length rest + length spare ≡ 64
    → ltb 56 (q + 1) ≡ true
    → let filled = rest ++ (0x80 ∷ replicate (63 - q) 0) in
      pad_buffer s (rest ++ spare) q ≡ (transform s filled, replicate 56 0 ++ drop 56 filled)
unfolding pad_buffer
pad_tight s rest spare q e room h =
    let same : 64 - (q + 1) ≡ 63 - q = omega arith in
    rw (h, same)
      (ap (λ t. (transform s t, copy_at t 0 (replicate 56 0))) whole
        ∙ ap (λ t. (transform s filled, t)) fresh)
  where
    filled : List ℕ
    filled = rest ++ (0x80 ∷ replicate (63 - q) 0)

    whole : copy_at (copy_at (rest ++ spare) q (0x80 ∷ [])) (q + 1) (replicate (63 - q) 0) ≡ filled
    whole =
        store_mark rest spare q (63 - q) e
        ∙ ap (λ t. filled ++ t)
            (drop_all (63 - q) (drop 1 spare) (omega (arith, length-drop 1 spare)))
        ∙ append-nil filled

    fresh : copy_at filled 0 (replicate 56 0) ≡ replicate 56 0 ++ drop 56 filled
    fresh =
        copy_at_end [] filled (replicate 56 0) 0 refl
        ∙ ap (λ k. replicate 56 0 ++ drop k filled) (length-replicate 56 0)
