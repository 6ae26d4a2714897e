-- ===== src/Crypto/HexLaws.antt =====
-- The printing of hash strings against their parsing.
use net_chunk.Base.{
  ℕ, zero, suc, ◌*◌, ◌/◌, ◌%◌, ◌<◌, Bool, true, false, Option, none, some, List, [], ◌∷◌, ◌≡◌, refl,
  ap, arith, ◌==◌, ==_iff, if◌then◌else◌, Bool-cases, Option-cases, inl, inr, length, All, success,
  ok,
}
use net_chunk.Crypto.Hex.{
  hex_digit, hex_bytes, hash_to_hex_string, parse_byte, parse_bytes, hex_string_to_hash,
}

is_some_of : Option ℕ → ℕ → Bool
is_some_of none b = false
is_some_of (some a) b = a == b

byte_test : ℕ → Bool
unfolding parse_byte is_some_of
byte_test b = is_some_of (parse_byte (hex_digit (b / 16)) (hex_digit (b % 16))) b

-- The test succeeds at every number of the table's first `n`.
passes : (ℕ → Bool) → ℕ → Bool
passes test zero = true
passes test (suc n) = if test n then passes test n else false

passes_at : (test : ℕ → Bool) (n : ℕ) → passes test n ≡ true → (b : ℕ) → b < n → test b ≡ true
unfolding passes
passes_at test zero h b below = absurd (omega arith)
passes_at test (suc n) h b below = elim (Bool-cases (b == n)) [
  | inl last ↦ ground (arith, ap test ((==_iff b n).0 last))
  | inr earlier ↦ passes_at test n (ground arith) b (ground arith)
]

byte_table : passes byte_test 256 ≡ true
unfolding passes byte_test
byte_table = refl

is_some_of_sound : (o : Option ℕ) (b : ℕ) → is_some_of o b ≡ true → o ≡ some b
unfolding is_some_of
is_some_of_sound none b h = cc
is_some_of_sound (some a) b h = ap some ((==_iff a b).0 h)

parse_byte-hex : (b : ℕ) → b < 256 → parse_byte (hex_digit (b / 16)) (hex_digit (b % 16)) ≡ some b
parse_byte-hex b h =
    is_some_of_sound (parse_byte (hex_digit (b / 16)) (hex_digit (b % 16))) b
      (unfold byte_test in passes_at byte_test 256 byte_table b h)

length-hex_bytes : (bs : List ℕ) → length (hex_bytes bs) ≡ length bs * 2
unfolding hex_bytes
length-hex_bytes [] = refl
length-hex_bytes (b ∷ bs) = omega (arith, length-hex_bytes bs)

parse_bytes-hex_bytes :
    (bs old : List ℕ)
    → All (λ b. b < 256) bs
    → length old ≡ length bs
    → parse_bytes (hex_bytes bs) old ≡ (success, bs)
unfolding parse_bytes hex_bytes
parse_bytes-hex_bytes [] [] h e = refl
parse_bytes-hex_bytes [] (o ∷ old) h e = absurd (omega arith)
parse_bytes-hex_bytes (b ∷ bs) [] h e = absurd (omega arith)
parse_bytes-hex_bytes (b ∷ bs) (o ∷ old) h e =
    rw (parse_byte-hex b h.0, parse_bytes-hex_bytes bs old h.1 (omega arith))

pub hex_string_to_hash-hex_bytes :
    (hash old : List ℕ)
    → All (λ b. b < 256) hash
    → 0 < length hash
    → length old ≡ length hash
    → hex_string_to_hash (hex_bytes hash) old ≡ (success, hash)
unfolding hex_string_to_hash
hex_string_to_hash-hex_bytes hash old bytes pos e =
    rw (full, fits) (parse_bytes-hex_bytes hash old bytes e)
  where
    full : (length old == 0) ≡ false
    full = ground arith

    fits : (length (hex_bytes hash) == length old * 2) ≡ true
    fits = ground (arith, length-hex_bytes hash)

-- Printing a hash of bytes that is not empty and parsing the text into an array of the same
-- length, whatever it held, succeeds and gives the hash back.
pub hex_string_to_hash-hash_to_hex_string :
    (hash old : List ℕ)
    → All (λ b. b < 256) hash
    → 0 < length hash
    → length old ≡ length hash
    → (text : List ℕ) × (hash_to_hex_string hash ≡ ok text)
      × (hex_string_to_hash text old ≡ (success, hash))
unfolding hash_to_hex_string
hex_string_to_hash-hash_to_hex_string hash old bytes pos e =
    (hex_bytes hash, ground arith, hex_string_to_hash-hex_bytes hash old bytes pos e)

parse_byte-lt : (c d : ℕ) {b : ℕ} → parse_byte c d ≡ some b → b < 256
unfolding parse_byte
parse_byte-lt c d h = ground arith

parse_bytes_bounds :
    (text old : List ℕ)
    → All (λ b. b < 256) old
    → (length (parse_bytes text old).1 ≡ length old) × All (λ b. b < 256) (parse_bytes text old).1
unfolding parse_bytes
parse_bytes_bounds [] old h = (refl, h)
parse_bytes_bounds (c ∷ []) old h = (refl, h)
parse_bytes_bounds (c ∷ d ∷ text) [] h = (refl, h)
parse_bytes_bounds (c ∷ d ∷ text) (o ∷ old) h =
    let ih = parse_bytes_bounds text old h.1 in
    elim (Option-cases (parse_byte c d)) [
      | inl bad ↦ rw bad (refl, h)
      | inr (b, good) ↦ rw good (ap suc ih.0, (parse_byte-lt c d good, ih.1))
    ]

-- Whatever the text, an array of bytes keeps its length and holds bytes.
pub hex_string_to_hash_bounds :
    (text old : List ℕ)
    → All (λ b. b < 256) old
    → (length (hex_string_to_hash text old).1 ≡ length old)
      × All (λ b. b < 256) (hex_string_to_hash text old).1
unfolding hex_string_to_hash
hex_string_to_hash_bounds text old h = elim (Bool-cases (length old == 0)) [
  | inl empty ↦ rw empty (refl, h)
  | inr full ↦ elim (Bool-cases (length text == length old * 2)) [
    | inl fits ↦ rw (full, fits) (parse_bytes_bounds text old h)
    | inr other ↦ rw (full, other) (refl, h)
  ]
]
