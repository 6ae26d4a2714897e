-- ===== src/Crypto/WordLaws.antt =====
-- The bit tricks of the 32-bit helpers, as arithmetic.
use net_chunk.Base.{
  ℕ, zero, suc, ◌+◌, ◌-◌, ◌*◌, ◌/◌, ◌%◌, ◌^◌, ◌<◌, bit_or, [], ◌∷◌, ◌≡◌, sym, ap, ap₂, ◌∙◌, arith,
  u8, u32, ◌<<<◌, ◌>>>◌, bit_or_low_high, bit_or_high_low,
}
use native.Mathlib.Nat.{
  pow-suc, one-le-pow, mod-lt, mod-eq_of_lt, div-add-mod', mul-add-mod_self_right,
}
use net_chunk.Crypto.Words.{rotr, uint32_to_bytes, bytes_to_uint32}

-- One more byte below the fields that are there.
or_field :
    (k high low : ℕ) {x y : ℕ}
    → low < 2 ^ k
    → x ≡ high * 2 ^ k
    → y ≡ low
    → bit_or x y ≡ high * 2 ^ k + low
or_field k high low h p q = ap₂ bit_or p q ∙ bit_or_high_low k high low h

-- The word of four bytes, the most significant first.
bytes_to_uint32-sum :
    (a b c d : ℕ)
    → a < 256
    → b < 256
    → c < 256
    → d < 256
    → bytes_to_uint32 (a ∷ b ∷ c ∷ d ∷ []) ≡ a * 2 ^ 24 + b * 2 ^ 16 + c * 2 ^ 8 + d
unfolding bytes_to_uint32
bytes_to_uint32-sum a b c d p q r s =
    or_field 8 (a * 2 ^ 16 + b * 2 ^ 8 + c) d (omega arith) (three ∙ omega arith) (omega arith)
    ∙ omega arith
  where
    two : bit_or (u32 (a <<< 24)) (u32 (b <<< 16)) ≡ a * 2 ^ 24 + b * 2 ^ 16
    two = or_field 24 a (b * 2 ^ 16) (omega arith) (omega arith) (omega arith)

    three :
        bit_or (bit_or (u32 (a <<< 24)) (u32 (b <<< 16))) (u32 (c <<< 8))
        ≡ (a * 2 ^ 8 + b) * 2 ^ 16 + c * 2 ^ 8
    three = or_field 16 (a * 2 ^ 8 + b) (c * 2 ^ 8) (omega arith) (two ∙ omega arith) (omega arith)

-- The bytes of a 32-bit word, put together again, are the word.
pub bytes_to_uint32-uint32_to_bytes : (x : ℕ) → x < 2 ^ 32 → bytes_to_uint32 (uint32_to_bytes x) ≡ x
unfolding uint32_to_bytes
bytes_to_uint32-uint32_to_bytes x h =
    bytes_to_uint32-sum (u8 (x >>> 24)) (u8 (x >>> 16)) (u8 (x >>> 8)) (u8 x) (omega arith)
      (omega arith) (omega arith) (omega arith)
    ∙ omega arith

-- The word of four bytes has those bytes.
pub uint32_to_bytes-bytes_to_uint32 :
    (a b c d : ℕ)
    → a < 256
    → b < 256
    → c < 256
    → d < 256
    → uint32_to_bytes (bytes_to_uint32 (a ∷ b ∷ c ∷ d ∷ [])) ≡ a ∷ b ∷ c ∷ d ∷ []
uint32_to_bytes-bytes_to_uint32 a b c d p q r s =
    ap uint32_to_bytes (bytes_to_uint32-sum a b c d p q r s)
    ∙ (unfold uint32_to_bytes in ground arith)

pow-add : (k j : ℕ) → 2 ^ (k + j) ≡ 2 ^ k * 2 ^ j
pow-add zero j = ap (λ n. 2 ^ n) plain ∙ omega arith
  where
    plain : 0 + j ≡ j
    plain = omega arith
pow-add (suc k) j =
    ap (λ n. 2 ^ n) (later k j) ∙ grind (arith, pow-suc 2 (k + j), pow-suc 2 k, pow-add k j)
  where
    later : (k j : ℕ) → suc k + j ≡ suc (k + j)
    later k j = omega arith

mul-mod-mul_right : (x m q : ℕ) → 0 < m → 0 < q → (x * q) % (m * q) ≡ x % m * q
mul-mod-mul_right x m q hm hq =
    ap (λ t. t % (m * q)) split
    ∙ mul-add-mod_self_right (x / m) (m * q) (x % m * q)
    ∙ mod-eq_of_lt (grind (arith, mod-lt))
  where
    split : x * q ≡ x / m * (m * q) + x % m * q
    split = grind (arith, ap (λ t. t * q) (div-add-mod' x m))

-- `sha256_rotr` moves the low bits of a 32-bit word to the top and the others down, for an
-- amount from 1 to 31.
pub rotr_lem :
    (x k : ℕ) → x < 2 ^ 32 → 0 < k → k < 32 → rotr x k ≡ x % 2 ^ k * 2 ^ (32 - k) + x / 2 ^ k
unfolding rotr
rotr_lem x k h p q =
    ap (bit_or (x >>> k)) top ∙ bit_or_low_high (32 - k) (x % 2 ^ k) (x >>> k) below
  where
    all_bits : k + (32 - k) ≡ 32
    all_bits = omega arith

    whole : 2 ^ k * 2 ^ (32 - k) ≡ 2 ^ 32
    whole = sym (pow-add k (32 - k)) ∙ ap (λ n. 2 ^ n) all_bits

    top : u32 (x <<< (32 - k)) ≡ x % 2 ^ k * 2 ^ (32 - k)
    top =
        ap (λ t. (x * 2 ^ (32 - k)) % t) (sym whole)
        ∙ mul-mod-mul_right x (2 ^ k) (2 ^ (32 - k)) (one-le-pow k 2 (omega arith))
            (one-le-pow (32 - k) 2 (omega arith))

    below : x >>> k < 2 ^ (32 - k)
    below = grind (arith, whole)
