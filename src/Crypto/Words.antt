-- ===== src/Crypto/Words.antt =====
-- The 32-bit helper functions of src/crypto.c, lines 347 to 383. A `uint32_t` is a number below
-- 2 ^ 32, a byte one below 2 ^ 8.
use net_chunk.Base.{
  ℕ, ◌-◌, ◌^◌, bit_and, bit_or, bit_xor, List, [], ◌∷◌, u8, u32, ◌<<<◌, ◌>>>◌, get_or,
}

-- `~x` on 32 bits.
abbrev pub not32 : ℕ → ℕ
not32 x = 2 ^ 32 - 1 - x

unfoldable pub rotr : ℕ → ℕ → ℕ
rotr value amount = bit_or (value >>> amount) (u32 (value <<< (32 - amount)))

unfoldable pub choose : ℕ → ℕ → ℕ → ℕ
choose x y z = bit_xor (bit_and x y) (bit_and (not32 x) z)

unfoldable pub majority : ℕ → ℕ → ℕ → ℕ
majority x y z = bit_xor (bit_xor (bit_and x y) (bit_and x z)) (bit_and y z)

unfoldable pub sig0 : ℕ → ℕ
unfolding rotr
sig0 x = bit_xor (bit_xor (rotr x 2) (rotr x 13)) (rotr x 22)

unfoldable pub sig1 : ℕ → ℕ
unfolding rotr
sig1 x = bit_xor (bit_xor (rotr x 6) (rotr x 11)) (rotr x 25)

-- The four bytes stored, most significant first.
unfoldable pub uint32_to_bytes : ℕ → List ℕ
uint32_to_bytes val = u8 (val >>> 24) ∷ u8 (val >>> 16) ∷ u8 (val >>> 8) ∷ u8 val ∷ []

-- The word at `bytes + at`.
unfoldable pub bytes_to_uint32 : List ℕ → ℕ
bytes_to_uint32 bytes =
    bit_or
      (bit_or (bit_or (u32 (get_or bytes 0 0 <<< 24)) (u32 (get_or bytes 1 0 <<< 16)))
        (u32 (get_or bytes 2 0 <<< 8)))
      (get_or bytes 3 0)
