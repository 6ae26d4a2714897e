-- ===== src/Crypto/Tests.antt =====
-- Runs of the hash functions, and the theorems about them at concrete inputs.
use net_chunk.Base.{
  ℕ, ◌≡◌, refl, arith, List, [], ◌∷◌, false, some, ok, success, take, drop, replicate,
}
use net_chunk.Crypto.Compress.{transform}
use net_chunk.Crypto.Context.{pad_buffer, output, init, update, hash, hash_file}
use net_chunk.Crypto.Padding.{digest}
use net_chunk.Crypto.Streaming.{Represents, init-Represents, update-Represents}
use net_chunk.Crypto.Final.{hash-digest, hash_file-eq-hash}
use net_chunk.Crypto.Hex.{hash_to_hex_string, hex_string_to_hash}
use net_chunk.Crypto.HexLaws.{hex_string_to_hash-hash_to_hex_string}

abbrev abc : List ℕ
abc = 0x61 ∷ 0x62 ∷ 0x63 ∷ []

-- The digest of "abc" in FIPS 180-4.
hash_abc :
    hash abc
    ≡ 0xba ∷ 0x78 ∷ 0x16 ∷ 0xbf ∷ 0x8f ∷ 0x01 ∷ 0xcf ∷ 0xea ∷ 0x41 ∷ 0x41 ∷ 0x40 ∷ 0xde ∷ 0x5d
      ∷ 0xae ∷ 0x22 ∷ 0x23 ∷ 0xb0 ∷ 0x03 ∷ 0x61 ∷ 0xa3 ∷ 0x96 ∷ 0x17 ∷ 0x7a ∷ 0x9c ∷ 0xb4 ∷ 0x10
      ∷ 0xff ∷ 0x61 ∷ 0xf2 ∷ 0x00 ∷ 0x15 ∷ 0xad ∷ []
unfolding hash pad_buffer output transform take drop replicate
hash_abc = refl

hash-digest_example : hash abc ≡ digest abc
hash-digest_example = hash-digest abc (omega arith)

hash_file-eq-hash_example :
    hash_file (some (record { pieces = (0x61 ∷ []) ∷ (0x62 ∷ 0x63 ∷ []) ∷ []; failed = false }))
    ≡ ok (hash abc)
hash_file-eq-hash_example = hash_file-eq-hash ((0x61 ∷ []) ∷ (0x62 ∷ 0x63 ∷ []) ∷ []) (omega arith)

update-Represents_example : Represents (update init abc) abc
update-Represents_example = update-Represents init [] abc (omega arith) init-Represents

hex_string_to_hash-hash_to_hex_string_example :
    (text : List ℕ) × (hash_to_hex_string (10 ∷ 255 ∷ []) ≡ ok text)
    × (hex_string_to_hash text (0 ∷ 0 ∷ []) ≡ (success, 10 ∷ 255 ∷ []))
hex_string_to_hash-hash_to_hex_string_example =
    hex_string_to_hash-hash_to_hex_string (10 ∷ 255 ∷ []) (0 ∷ 0 ∷ []) (omega arith) (omega arith)
      refl
