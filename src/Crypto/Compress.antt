-- ===== src/Crypto/Compress.antt =====
-- `sha256_transform` of src/crypto.c: the message schedule and the 64 rounds over one block.
use net_chunk.Base.{ℕ, zero, suc, ◌+◌, ◌-◌, bit_xor, List, [], ◌∷◌, ◌++◌, u32, ◌>>>◌, get_or, drop}
use net_chunk.Crypto.Words.{rotr, choose, majority, sig0, sig1, bytes_to_uint32}

-- `SHA256_K`
unfoldable pub round_constants : List ℕ
round_constants =
    0x428a2f98 ∷ 0x71374491 ∷ 0xb5c0fbcf ∷ 0xe9b5dba5 ∷ 0x3956c25b ∷ 0x59f111f1 ∷ 0x923f82a4
    ∷ 0xab1c5ed5 ∷ 0xd807aa98 ∷ 0x12835b01 ∷ 0x243185be ∷ 0x550c7dc3 ∷ 0x72be5d74 ∷ 0x80deb1fe
    ∷ 0x9bdc06a7 ∷ 0xc19bf174 ∷ 0xe49b69c1 ∷ 0xefbe4786 ∷ 0x0fc19dc6 ∷ 0x240ca1cc ∷ 0x2de92c6f
    ∷ 0x4a7484aa ∷ 0x5cb0a9dc ∷ 0x76f988da ∷ 0x983e5152 ∷ 0xa831c66d ∷ 0xb00327c8 ∷ 0xbf597fc7
    ∷ 0xc6e00bf3 ∷ 0xd5a79147 ∷ 0x06ca6351 ∷ 0x14292967 ∷ 0x27b70a85 ∷ 0x2e1b2138 ∷ 0x4d2c6dfc
    ∷ 0x53380d13 ∷ 0x650a7354 ∷ 0x766a0abb ∷ 0x81c2c92e ∷ 0x92722c85 ∷ 0xa2bfe8a1 ∷ 0xa81a664b
    ∷ 0xc24b8b70 ∷ 0xc76c51a3 ∷ 0xd192e819 ∷ 0xd6990624 ∷ 0xf40e3585 ∷ 0x106aa070 ∷ 0x19a4c116
    ∷ 0x1e376c08 ∷ 0x2748774c ∷ 0x34b0bcb5 ∷ 0x391c0cb3 ∷ 0x4ed8aa4a ∷ 0x5b9cca4f ∷ 0x682e6ff3
    ∷ 0x748f82ee ∷ 0x78a5636f ∷ 0x84c87814 ∷ 0x8cc70208 ∷ 0x90befffa ∷ 0xa4506ceb ∷ 0xbef9a3f7
    ∷ 0xc67178f2 ∷ []

-- The eight words of `context->state`, and the working variables of the rounds.
pub record HashState : Type 0 where
  pub a : ℕ
  pub b : ℕ
  pub c : ℕ
  pub d : ℕ
  pub e : ℕ
  pub f : ℕ
  pub g : ℕ
  pub h : ℕ

-- `w[0]` to `w[15]`, from the block at index `i`, with `n` words left to read.
read_words : ℕ → List ℕ → List ℕ
unfolding bytes_to_uint32
read_words zero bytes = []
read_words (suc n) bytes = bytes_to_uint32 bytes ∷ read_words n (drop 4 bytes)

-- `w[i]` for an index past 15.
next_word : List ℕ → ℕ → ℕ
unfolding rotr
next_word w i =
    let w15 = get_or w (i - 15) 0 in
    let w2 = get_or w (i - 2) 0 in
    let s0 = bit_xor (bit_xor (rotr w15 7) (rotr w15 18)) (w15 >>> 3) in
    let s1 = bit_xor (bit_xor (rotr w2 17) (rotr w2 19)) (w2 >>> 10) in
    u32 (get_or w (i - 16) 0 + s0 + get_or w (i - 7) 0 + s1)

extend : ℕ → ℕ → List ℕ → List ℕ
unfolding next_word
extend zero i w = w
extend (suc n) i w = extend n (i + 1) (w ++ (next_word w i ∷ []))

unfoldable pub schedule : List ℕ → List ℕ
unfolding read_words extend
schedule block = extend 48 16 (read_words 16 block)

round : HashState → ℕ → ℕ → HashState
unfolding choose majority sig0 sig1
round s k w =
    let t1 = u32 (s.h + sig1 s.e + choose s.e s.f s.g + k + w) in
    let t2 = u32 (sig0 s.a + majority s.a s.b s.c) in
    record {
      a = u32 (t1 + t2);
      b = s.a;
      c = s.b;
      d = s.c;
      e = u32 (s.d + t1);
      f = s.e;
      g = s.f;
      h = s.g;
    }

-- The main loop at index `i`, with `n` rounds left.
rounds : ℕ → ℕ → List ℕ → HashState → HashState
unfolding round round_constants
rounds zero i w s = s
rounds (suc n) i w s = rounds n (i + 1) w (round s (get_or round_constants i 0) (get_or w i 0))

add_state : HashState → HashState → HashState
add_state s t = record {
  a = u32 (s.a + t.a);
  b = u32 (s.b + t.b);
  c = u32 (s.c + t.c);
  d = u32 (s.d + t.d);
  e = u32 (s.e + t.e);
  f = u32 (s.f + t.f);
  g = u32 (s.g + t.g);
  h = u32 (s.h + t.h);
}

unfoldable pub transform : HashState → List ℕ → HashState
unfolding schedule rounds add_state
transform s block = add_state s (rounds 64 0 (schedule block) s)
