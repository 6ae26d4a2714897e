-- ===== src/Crypto/Context.antt =====
-- The streaming interface of src/crypto.c: `netchunk_sha256_init`, `_update`, `_final`, and the
-- two functions that hash a buffer and a file.
use net_chunk.Base.{
  ℕ, zero, suc, ◌+◌, ◌-◌, ◌*◌, ◌%◌, bit_and, Bool, List, [], ◌∷◌, ◌++◌, ltb, leb, ◌==◌,
  if◌then◌else◌, length, take, drop, replicate, copy_at, u32, u64, ◌>>>◌, Result, ok, err, Option,
  none, some, file_not_found, file_access,
}
use net_chunk.Crypto.Words.{uint32_to_bytes}
use net_chunk.Crypto.Compress.{HashState, transform}

-- `netchunk_sha256_context_t`; the buffer always holds 64 bytes.
pub record Sha256 : Type 0 where
  pub state : HashState
  pub count : ℕ
  pub buffer : List ℕ

-- `SHA256_H0`
unfoldable pub initial_state : HashState
initial_state = record {
  a = 0x6a09e667;
  b = 0xbb67ae85;
  c = 0x3c6ef372;
  d = 0xa54ff53a;
  e = 0x510e527f;
  f = 0x9b05688c;
  g = 0x1f83d9ab;
  h = 0x5be0cd19;
}

unfoldable pub init : Sha256
unfolding initial_state
init = record { state = initial_state; count = 0; buffer = replicate 64 0 }

-- The while loop over complete blocks: the state, and the input that is left. Each turn takes
-- 64 bytes off, so the input's length is fuel enough.
unfoldable pub absorb : ℕ → HashState → List ℕ → HashState × List ℕ
absorb zero s input = (s, input)
absorb (suc fuel) s input =
    let rest = absorb fuel (transform s (take 64 input)) (drop 64 input) in
    if leb 64 (length input) then rest else (s, input)

-- The branch that fills the buffer, at the given space left in it.
unfoldable pub fill_buffer : Sha256 → ℕ → List ℕ → Sha256
unfolding absorb
fill_buffer ctx space bytes =
    let full = copy_at ctx.buffer (64 - space) (take space bytes) in
    let input = drop space bytes in
    let (s, left) = absorb (length input) (transform ctx.state full) input in
    record { state = s; count = ctx.count; buffer = copy_at full 0 left }

unfoldable pub update : Sha256 → List ℕ → Sha256
unfolding fill_buffer
update ctx bytes =
    let space = 64 - ctx.count % 64 in
    let counted = record ctx { count = u64 (ctx.count + length bytes) } in
    if length bytes == 0
    then ctx
    else if leb space (length bytes)
    then fill_buffer counted space bytes
    else record counted { buffer = copy_at ctx.buffer (64 - space) bytes }

-- The buffer up to byte 56, with the mark written and zeros behind it.
unfoldable pub pad_buffer : HashState → List ℕ → ℕ → HashState × List ℕ
pad_buffer s buffer at =
    let marked = copy_at buffer at (0x80 ∷ []) in
    let pos = at + 1 in
    let filled = copy_at marked pos (replicate (64 - pos) 0) in
    if ltb 56 pos
    then (transform s filled, copy_at filled 0 (replicate 56 0))
    else (s, copy_at marked pos (replicate (56 - pos) 0))

unfoldable pub output : HashState → List ℕ
unfolding uint32_to_bytes
output s =
    uint32_to_bytes s.a
    ++ (uint32_to_bytes s.b
        ++ (uint32_to_bytes s.c
            ++ (uint32_to_bytes s.d
                ++ (uint32_to_bytes s.e
                    ++ (uint32_to_bytes s.f ++ (uint32_to_bytes s.g ++ uint32_to_bytes s.h))))))

-- The hash, and the context that the call leaves.
unfoldable pub final : Sha256 → List ℕ × Sha256
final ctx =
    let bit_len = u64 (ctx.count * 8) in
    let (s, padded) = pad_buffer ctx.state ctx.buffer (ctx.count % 64) in
    let high = copy_at padded 56 (uint32_to_bytes (u32 (bit_len >>> 32))) in
    let block = copy_at high 60 (uint32_to_bytes (u32 (bit_and bit_len 0xffffffff))) in
    let s' = transform s block in
    (output s', record { state = s'; count = ctx.count; buffer = block })

unfoldable pub hash : List ℕ → List ℕ
unfolding init update final
hash bytes = (final (update init bytes)).0

-- What the reads of a file return, in order, and whether the last one failed.
pub record Reads : Type 0 where
  pub pieces : List (List ℕ)
  pub failed : Bool

unfoldable pub update_all : Sha256 → List (List ℕ) → Sha256
update_all ctx [] = ctx
update_all ctx (p ∷ ps) = update_all (update ctx p) ps

-- `none` is a file that cannot be opened.
unfoldable pub hash_file : Option Reads → Result (List ℕ)
unfolding init final update_all
hash_file none = err file_not_found
hash_file (some file) =
    let ctx = update_all init file.pieces in
    if file.failed then err file_access else ok (final ctx).0
