-- ===== src/Crypto/Hex.antt =====
-- `netchunk_hash_to_hex_string`, `netchunk_hex_string_to_hash` and `netchunk_hash_compare` of
-- src/crypto.c. `hash_len` is the length of the array.
use net_chunk.Base.{
  ℕ, ◌+◌, ◌-◌, ◌*◌, ◌/◌, ◌%◌, Bool, false, Option, none, some, List, [], ◌∷◌, ltb, ◌==◌,
  if◌then◌else◌, length, u8, ErrorCode, success, invalid_argument, Result, ok, err,
}
use net_chunk.Libc.Text.{same_text}
use net_chunk.Libc.Number.{strtoul}

-- A digit of `%x`.
abbrev pub hex_digit : ℕ → ℕ
hex_digit n = if ltb n 10 then b'0' + n else b'a' + (n - 10)

-- `%02x` of a byte.
abbrev pub hex_byte : ℕ → List ℕ
hex_byte b = hex_digit (b / 16) ∷ hex_digit (b % 16) ∷ []

unfoldable pub hex_bytes : List ℕ → List ℕ
hex_bytes [] = []
hex_bytes (b ∷ bs) = hex_digit (b / 16) ∷ hex_digit (b % 16) ∷ hex_bytes bs

unfoldable pub hash_to_hex_string : List ℕ → Result (List ℕ)
hash_to_hex_string hash = if length hash == 0 then err invalid_argument else ok (hex_bytes hash)

-- One turn of the loop: the byte that two characters stand for, if they do.
unfoldable pub parse_byte : ℕ → ℕ → Option ℕ
unfolding strtoul
parse_byte c d =
    let (value, rest) = strtoul 16 (c ∷ d ∷ []) in
    elim rest [ [] ↦ if ltb 255 value then none else some (u8 value) | x ∷ xs ↦ none ]

-- What a turn does with the byte: it is stored, and the loop goes on, or the array is left.
abbrev pub store_byte : Option ℕ → List ℕ → ErrorCode × List ℕ → ErrorCode × List ℕ
store_byte none hash rest = (invalid_argument, hash)
store_byte (some b) hash (e, rest) = (e, b ∷ rest)

-- The loop, over the array that is filled in place: what it held stands behind a bad byte.
unfoldable pub parse_bytes : List ℕ → List ℕ → ErrorCode × List ℕ
parse_bytes (c ∷ d ∷ text) (old ∷ hash) =
    store_byte (parse_byte c d) (old ∷ hash) (parse_bytes text hash)
parse_bytes text hash = (success, hash)

unfoldable pub hex_string_to_hash : List ℕ → List ℕ → ErrorCode × List ℕ
hex_string_to_hash text hash =
    if length hash == 0
    then (invalid_argument, hash)
    else if length text == length hash * 2
    then parse_bytes text hash
    else (invalid_argument, hash)

-- `memcmp` of two hashes of one length.
unfoldable pub hash_compare : List ℕ → List ℕ → Bool
hash_compare hash1 hash2 = if length hash1 == 0 then false else same_text hash1 hash2
