-- ===== src/Api/Turns.antt =====
-- What `netchunk_upload` of src/netchunk.c is answered by the chunker: the codes of its calls, and
-- the bytes that each takes off the file.
use mathlib.Core.Path.{subst}
use net_chunk.Base.{
  ℕ, ◌<◌, ◌==◌, Bool, true, false, Option, none, some, List, ◌≡◌, ◌⊎◌, refl, sym, ap, arith, length,
  drop, length-drop, take, length-take, inl, inr, Bool-cases, Option-cases, ErrorCode, success,
  file_access, file_not_found, ◌&&◌, failed, Result, ok, err, code_of,
}
use net_chunk.Chunker.Types.{Chunk}
use net_chunk.Chunker.Chunk.{chunk_init, chunk_set_data}
use net_chunk.Chunker.Stream.{
  Stream, Env, InitWorld, chunker_init, read_file_chunk, finish_chunk, make_chunk, next_chunk,
}
use net_chunk.Chunker.Stream
use net_chunk.Crypto.Context.{Reads, init, update_all, final, hash_file}
use net_chunk.Api.Upload.{is_eof}

-- An error, but not the one that an upload takes for the end of the file.
abbrev pub IsStop : ErrorCode → Type 0
IsStop e = (failed e ≡ true) × (is_eof e ≡ false)

-- The bytes that the chunker has not read.
abbrev pub unread : Stream.Context → ℕ
unread context = elim context.input_file [ none ↦ 0 | some file ↦ length file.rest ]

chunk_set_data_codes :
    (chunk : Chunk) (bytes : List ℕ) (allocated : Bool)
    → ((chunk_set_data chunk bytes allocated).0 ≡ success)
      ⊎ IsStop (chunk_set_data chunk bytes allocated).0
unfolding chunk_set_data
chunk_set_data_codes chunk bytes allocated = elim (Bool-cases (length bytes == 0)) [
  | inl e ↦ rw (chunk_set_data, e) (inr (refl, refl))
  | inr e ↦ elim (Bool-cases allocated) [
    | inl a ↦ rw (chunk_set_data, e, a) (inl refl)
    | inr a ↦ rw (chunk_set_data, e, a) (inr (refl, refl))
  ]
]

-- A call for a chunk, with `bound` bytes unread before it: an error stops the upload, and a chunk
-- takes bytes off.
abbrev pub IsTurn : ℕ → Result Chunk × Stream.Context → Type 0
IsTurn bound (err e, context') = IsStop e
IsTurn bound (ok chunk, context') = unread context' < bound

finish_chunk-err :
    (env : Env) (context : Stream.Context) (bytes : List ℕ) (code : ErrorCode) (chunk : Chunk)
    → failed code ≡ true
    → finish_chunk env context bytes (code, chunk) ≡ (err code, context)
unfolding finish_chunk
finish_chunk-err env context bytes success chunk h = cc
finish_chunk-err env context bytes code chunk h = refl

finish_chunk-IsTurn :
    (env : Env) (context : Stream.Context) (bytes : List ℕ) (x : ErrorCode × Chunk) (bound : ℕ)
    → (x.0 ≡ success) ⊎ IsStop x.0
    → unread context < bound
    → IsTurn bound (finish_chunk env context bytes x)
unfolding finish_chunk
finish_chunk-IsTurn env context bytes (code, chunk) bound (inl e) less =
    subst (λ c. IsTurn bound (finish_chunk env context bytes (c, chunk))) (sym e) less
finish_chunk-IsTurn env context bytes (code, chunk) bound (inr stop) less =
    rw (finish_chunk-err env context bytes code chunk stop.0) stop

make_chunk-IsTurn :
    (env : Env) (context : Stream.Context) (bytes : List ℕ) (bound : ℕ)
    → (0 < length bytes → unread context < bound)
    → IsTurn bound (make_chunk env context bytes)
unfolding make_chunk
make_chunk-IsTurn env context bytes bound less = elim (Bool-cases (length bytes == 0)) [
  | inl e ↦ rw (make_chunk, e) (refl, refl)
  | inr e ↦
      let fresh = chunk_init context.current_chunk_number (length bytes) env.now in
      rw (make_chunk, e)
        (finish_chunk-IsTurn env context bytes (chunk_set_data fresh bytes env.allocated) bound
          (chunk_set_data_codes fresh bytes env.allocated) (less (ground (arith, e))))
]

read_file_chunk_parts :
    (file : Stream) (n : ℕ)
    → ((read_file_chunk file n).1 ≡ take n file.rest)
      × ((read_file_chunk file n).2 ≡ record file { rest = drop n file.rest })
      × (((read_file_chunk file n).0 ≡ success) ⊎ ((read_file_chunk file n).0 ≡ file_access))
unfolding read_file_chunk
read_file_chunk_parts file n =
    elim (Bool-cases
      ((length (take n file.rest) == 0) && ((length file.rest == 0) && file.broken))) [
        | inl e ↦ rw (read_file_chunk, e) (refl, refl, inr refl)
        | inr e ↦ rw (read_file_chunk, e) (refl, refl, inl refl)
      ]

pub next_chunk-IsTurn :
    (env : Env) (context : Stream.Context) → IsTurn (unread context) (next_chunk env context)
unfolding next_chunk
next_chunk-IsTurn env context = elim (Bool-cases context.finished) [
  | inl e ↦ rw (next_chunk, e) (refl, refl)
  | inr e ↦ elim (Option-cases context.input_file) [
    | inl none_open ↦ rw (next_chunk, e, none_open) (refl, refl)
    | inr (file, opened) ↦ elim (Bool-cases context.chunk_buffer) [
      | inr b ↦ rw (next_chunk, e, opened, b) (refl, refl)
      | inl b ↦
          let parts = read_file_chunk_parts file context.chunk_size in
          elim parts.2 [
            | inr broken ↦ rw (next_chunk, e, opened, b, broken) (refl, refl)
            | inl fine ↦
                rw (next_chunk, e, opened, b, fine, parts.0, parts.1)
                  (make_chunk-IsTurn env
                    (record context {
                      input_file = some (record file { rest = drop context.chunk_size file.rest });
                    })
                    (take context.chunk_size file.rest) (length file.rest)
                    (λ some_read. omega (
                      arith,
                      some_read,
                      length-take context.chunk_size file.rest,
                      length-drop context.chunk_size file.rest,
                    )))
          ]
    ]
  ]
]

hash_file_cases :
    (reads : Option Reads)
    → ((e : ErrorCode) × (hash_file reads ≡ err e) × (failed e ≡ true))
      ⊎ ((hash : List ℕ) × (hash_file reads ≡ ok hash))
unfolding hash_file
hash_file_cases none = inl (file_not_found, refl, refl)
hash_file_cases (some file) = elim (Bool-cases file.failed) [
  | inl e ↦ inl (file_access, rw (hash_file, e) refl, refl)
  | inr e ↦ inr ((final (update_all init file.pieces)).0, rw (hash_file, e) refl)
]

-- The bytes of the file that the chunker opens.
abbrev pub bytes_opened : InitWorld → ℕ
bytes_opened system = elim system.opened [ none ↦ 0 | some file ↦ length file.rest ]

abbrev pub IsStart : ℕ → Result Stream.Context → Type 0
IsStart n (err e) = failed e ≡ true
IsStart n (ok context) = unread context ≡ n

pub chunker_init-IsStart :
    (path : List ℕ) (k : ℕ) (system : InitWorld)
    → IsStart (bytes_opened system) (chunker_init path k system)
unfolding chunker_init
chunker_init-IsStart path k system = elim (Bool-cases (k == 0)) [
  | inl e ↦ rw (chunker_init, e) refl
  | inr e ↦ elim (Option-cases system.opened) [
    | inl o ↦ rw (chunker_init, e, o) refl
    | inr (file, o) ↦ elim (Option-cases system.stat_size) [
      | inl m ↦ rw (chunker_init, e, o, m) refl
      | inr (size, m) ↦ elim (hash_file_cases system.hash_reads) [
        | inl (code, h, f) ↦ rw (chunker_init, e, o, m, h) f
        | inr (hash, h) ↦ elim (Bool-cases system.allocated) [
          | inr a ↦ rw (chunker_init, e, o, m, h, a) refl
          | inl a ↦ rw (chunker_init, e, o, m, h, a) refl
        ]
      ]
    ]
  ]
]

pub turn_err :
    (bound : ℕ) (x : Result Chunk × Stream.Context) (e : ErrorCode)
    → IsTurn bound x
    → x.0 ≡ err e
    → IsStop e
turn_err bound (err d, context') e h q = subst IsStop (ap code_of q) h
turn_err bound (ok chunk, context') e h q = absurd (ground (arith, q))

pub turn_ok :
    (bound : ℕ) (x : Result Chunk × Stream.Context) (chunk : Chunk)
    → IsTurn bound x
    → x.0 ≡ ok chunk
    → unread x.1 < bound
turn_ok bound (err d, context') chunk h q = absurd (ground (arith, q))
turn_ok bound (ok c, context') chunk h q = h
