-- ===== src/Crypto/Padding.antt =====
-- What SHA-256 computes on a whole message, as FIPS 180-4 states it (sections 5.1.1 and 6.2): pad
-- the message to whole blocks, and apply the compression function to each in turn.
use net_chunk.Base.{
  ℕ, zero, suc, ◌-◌, ◌*◌, ◌/◌, ◌%◌, ◌^◌, List, [], ◌∷◌, ◌++◌, ◌≡◌, refl, arith, length, take, drop,
  replicate, concat, All, IsBlock, foldl, length-concat, take-append, drop-append, ap, ap₂, ◌∙◌,
}
use net_chunk.Crypto.Compress.{HashState, transform}
use net_chunk.Crypto.Context.{initial_state, output}

-- A length in bits as eight bytes, most significant first.
abbrev pub length_field : ℕ → List ℕ
length_field n =
    n / 2 ^ 56 % 256
    ∷ n / 2 ^ 48 % 256
    ∷ n / 2 ^ 40 % 256
    ∷ n / 2 ^ 32 % 256
    ∷ n / 2 ^ 24 % 256
    ∷ n / 2 ^ 16 % 256
    ∷ n / 2 ^ 8 % 256
    ∷ n % 256
    ∷ []

-- Zeros until eight bytes are missing to a whole block.
abbrev pub zeros : ℕ → List ℕ
zeros n = replicate ((119 - n % 64) % 64) 0

abbrev pub suffix : ℕ → List ℕ
suffix n = 0x80 ∷ (zeros n ++ length_field (n * 8))

unfoldable pub pad : List ℕ → List ℕ
pad m = m ++ suffix (length m)

-- The first `n` blocks of a message.
process : ℕ → HashState → List ℕ → HashState
process zero s m = s
process (suc n) s m = process n (transform s (take 64 m)) (drop 64 m)

unfoldable pub digest : List ℕ → List ℕ
unfolding pad process
digest m = output (process (length (pad m) / 64) initial_state (pad m))

process-cons :
    (n : ℕ) (s : HashState) (b m : List ℕ)
    → length b ≡ 64
    → process (suc n) s (b ++ m) ≡ process n (transform s b) m
unfolding process
process-cons n s b m h =
    ap₂ (λ x y. process n (transform s x) y) (take-append 64 b m h) (drop-append 64 b m h)

process-foldl :
    (blocks : List (List ℕ)) (s : HashState)
    → All (IsBlock 64) blocks
    → process (length blocks) s (concat blocks) ≡ foldl transform s blocks
process-foldl [] s h = unfold process in refl
process-foldl (b ∷ bs) s h =
    process-cons (length bs) s b (concat bs) h.0 ∙ process-foldl bs (transform s b) h.1

-- A padded message that is cut into blocks has the digest of those blocks.
pub digest_of_blocks :
    (m : List ℕ) (blocks : List (List ℕ))
    → All (IsBlock 64) blocks
    → pad m ≡ concat blocks
    → digest m ≡ output (foldl transform initial_state blocks)
unfolding digest
digest_of_blocks m blocks h e =
    ap (λ p. output (process (length p / 64) initial_state p)) e
    ∙ ap (λ n. output (process n initial_state (concat blocks))) count
    ∙ ap output (process-foldl blocks initial_state h)
  where
    count : length (concat blocks) / 64 ≡ length blocks
    count = omega (arith, length-concat 64 blocks h)
