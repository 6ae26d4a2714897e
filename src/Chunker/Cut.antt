-- ===== src/Chunker/Cut.antt =====
-- What it is for chunks to be a file cut in order, said without the code that cuts.
use net_chunk.Base.{
  ℕ, suc, ◌+◌, ◌*◌, ◌≤◌, ◌<◌, true, Option, none, some, List, [], ◌∷◌, ◌++◌, ◌≡◌, sym, ap, ◌∙◌,
  arith, length, take, drop, length-drop, take-append-drop,
}
use net_chunk.Crypto.Context
use net_chunk.Chunker.Types.{Chunk}

-- The chunk holds these bytes, their number and their hash, and has this place in the file.
pub record IsPiece (n : ℕ) (bytes : List ℕ) (c : Chunk) : Type 0 where
  pub held : c.bytes ≡ some bytes
  pub sized : c.size ≡ length bytes
  pub hashed : c.hash ≡ Context.hash bytes
  pub placed : c.sequence_number ≡ n
  pub owned : c.data_owned ≡ true

-- The chunks are the bytes cut at every `k`, numbered from `n`; no chunk is empty.
abbrev pub AreCut : ℕ → ℕ → List ℕ → List Chunk → Type 0
AreCut k n bytes [] = bytes ≡ []
AreCut k n bytes (c ∷ cs) =
    (0 < length bytes) × IsPiece n (take k bytes) c × AreCut k (suc n) (drop k bytes) cs

-- The chunks' bytes, in order.
abbrev pub bytes_of : Option (List ℕ) → List ℕ
bytes_of none = []
bytes_of (some bytes) = bytes

abbrev pub contents : List Chunk → List ℕ
contents [] = []
contents (c ∷ cs) = bytes_of c.bytes ++ contents cs

-- Cut bytes, put together, are the bytes.
pub contents-AreCut :
    (k n : ℕ) (bytes : List ℕ) (cs : List Chunk) → AreCut k n bytes cs → contents cs ≡ bytes
contents-AreCut k n bytes [] h = sym h
contents-AreCut k n bytes (c ∷ cs) h =
    ap (λ t. bytes_of t ++ contents cs) h.1.held
    ∙ ap (λ t. take k bytes ++ t) (contents-AreCut k (suc n) (drop k bytes) cs h.2)
    ∙ take-append-drop k bytes

-- There are as many chunks as hold the bytes, and not one more.
pub length-AreCut :
    (k n : ℕ) (bytes : List ℕ) (cs : List Chunk)
    → 0 < k
    → AreCut k n bytes cs
    → (length bytes ≤ length cs * k) × (length cs * k < length bytes + k)
length-AreCut k n bytes [] pos h = omega (arith, ap length h)
length-AreCut k n bytes (c ∷ []) pos h = omega (arith, h.0, length-drop k bytes, ap length h.2)
length-AreCut k n bytes (c ∷ d ∷ cs) pos h = omega (
  arith,
  h.0,
  h.2.0,
  length-drop k bytes,
  length-AreCut k (suc n) (drop k bytes) (d ∷ cs) pos h.2,
)
