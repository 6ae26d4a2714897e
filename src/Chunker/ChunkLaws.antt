-- ===== src/Chunker/ChunkLaws.antt =====
-- The identifiers and the data of a chunk (src/chunker.c).
use net_chunk.Base.{ℕ, ◌/◌, ◌%◌, ◌^◌, ◌<◌, List, ◌≡◌, ap, arith, get_or, take}
use net_chunk.Crypto.Hex.{hex_digit}
use net_chunk.Chunker.Chunk.{hex_word, generate_chunk_id}

hex_digit_injective : (a b : ℕ) → a < 16 → b < 16 → hex_digit a ≡ hex_digit b → a ≡ b
hex_digit_injective a b p q h = ground arith

-- The four bytes of a 32-bit word determine it.
word_of_bytes :
    (n m : ℕ)
    → n < 2 ^ 32
    → m < 2 ^ 32
    → n / 2 ^ 24 % 256 ≡ m / 2 ^ 24 % 256
    → n / 2 ^ 16 % 256 ≡ m / 2 ^ 16 % 256
    → n / 2 ^ 8 % 256 ≡ m / 2 ^ 8 % 256
    → n % 256 ≡ m % 256
    → n ≡ m
word_of_bytes n m p q a b c d = omega arith

byte_of_digits :
    (a b : ℕ)
    → a < 256
    → b < 256
    → hex_digit (a / 16) ≡ hex_digit (b / 16)
    → hex_digit (a % 16) ≡ hex_digit (b % 16)
    → a ≡ b
byte_of_digits a b p q h l =
    let high : a / 16 ≡ b / 16 =
      hex_digit_injective (a / 16) (b / 16) (omega arith) (omega arith) h in
    let low : a % 16 ≡ b % 16 =
      hex_digit_injective (a % 16) (b % 16) (omega arith) (omega arith) l in
    omega (arith, high, low)

-- Identifiers made for different sequence numbers are different, whatever the file's hash and the
-- random bytes.
pub generate_chunk_id_injective :
    (n m : ℕ) (hash hash' random random' : List ℕ)
    → n < 2 ^ 32
    → m < 2 ^ 32
    → generate_chunk_id n hash random ≡ generate_chunk_id m hash' random'
    → n ≡ m
unfolding generate_chunk_id hex_word take
generate_chunk_id_injective n m hash hash' random random' p q h =
    word_of_bytes n m p q (byte_of_digits _ _ (omega arith) (omega arith) (digit 0) (digit 1))
      (byte_of_digits _ _ (omega arith) (omega arith) (digit 2) (digit 3))
      (byte_of_digits _ _ (omega arith) (omega arith) (digit 4) (digit 5))
      (byte_of_digits _ _ (omega arith) (omega arith) (digit 6) (digit 7))
  where
    digit :
        (i : ℕ)
        → get_or (generate_chunk_id n hash random) i 0
          ≡ get_or (generate_chunk_id m hash' random') i 0
    digit i = ap (λ l. get_or l i 0) h
