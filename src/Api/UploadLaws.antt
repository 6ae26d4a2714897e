-- ===== src/Api/UploadLaws.antt =====
-- How `netchunk_upload` of src/netchunk.c ends.
use mathlib.Core.Path.{subst}
use net_chunk.Base.{
  ℕ, zero, suc, ◌<◌, ◌==◌, Bool, true, not, Option, none, some, List, ◌≡◌, ◌⊎◌, refl, arith, inl,
  inr, Bool-cases, Option-cases, Result-cases, ErrorCode, success, file_not_found, invalid_argument,
  ◌&&◌, failed, err,
}
use net_chunk.Chunker.Types.{Location, Chunk}
use net_chunk.Chunker.Stream.{
  Stream, Env, InitWorld, chunker_init, read_file_chunk, finish_chunk, make_chunk, next_chunk,
}
use net_chunk.Chunker.Stream
use net_chunk.Config.Types.{Config}
use net_chunk.Manifest.Types.{FileManifest}
use net_chunk.Manifest.Build.{manifest_init, owns_bytes, add_chunk}
use net_chunk.Ftp.Remote.{Remote}
use net_chunk.Repair.Types.{live}
use net_chunk.Api.Types.{Context, ready}
use net_chunk.Api.Upload.{
  Progress, spread_chunk, send_chunk, send_chunks, finish_upload, finished_upload, upload,
}
use net_chunk.Api.Turns.{
  IsStop, unread, bytes_opened, IsStart, next_chunk-IsTurn, chunker_init-IsStart, turn_err, turn_ok,
}

module _ {W : Type 0} (r : Remote W) (clock : W → ℕ) (garbage : Location) where
  add_chunk_codes :
      (m : FileManifest) (c : Chunk) (grown copied : Bool)
      → ((add_chunk m c grown copied).0 ≡ success) ⊎ IsStop (add_chunk m c grown copied).0
  unfolding add_chunk
  add_chunk_codes m c grown copied = elim (Bool-cases grown) [
    | inr g ↦ rw (add_chunk, g) (inr (refl, refl))
    | inl g ↦ elim (Bool-cases (owns_bytes c && not copied)) [
      | inl o ↦ rw (add_chunk, g, o) (inr (refl, refl))
      | inr o ↦ rw (add_chunk, g, o) (inl refl)
    ]
  ]

  send_chunk_codes :
      (config : Config) (grown copied : Bool) (chunk : Chunk) (p : Progress W)
      → ((send_chunk r clock garbage config grown copied chunk p).0 ≡ success)
        ⊎ IsStop (send_chunk r clock garbage config grown copied chunk p).0
  unfolding send_chunk
  send_chunk_codes config grown copied chunk p =
      let s =
        spread_chunk r clock garbage config (live config)
          (record { world = p.world; chunk = chunk; copies = 0; retries = p.retries }) in
      elim (Bool-cases (s.copies == 0)) [
        | inl e ↦ rw (send_chunk, e) (inr (refl, refl))
        | inr e ↦ elim (add_chunk_codes p.manifest s.chunk grown copied) [
          | inl a ↦ rw (send_chunk, e, a) (inl refl)
          | inr a ↦ rw (send_chunk, e, a.0) (inr a)
        ]
      ]

  -- How the loop ends: with enough turns, and with an error.
  abbrev EndsWithError : Option (ErrorCode × Progress W) → Type 0
  EndsWithError none = ⊥
  EndsWithError (some (e, p)) = IsStop e

  send_chunks_end :
      (fuel : ℕ) (config : Config) (env : ℕ → Env) (memory : ℕ → Bool × Bool)
      (context : Stream.Context) (p : Progress W)
      → unread context < fuel
      → EndsWithError (send_chunks r clock garbage fuel config env memory context p)
  unfolding send_chunks
  send_chunks_end zero config env memory context p less = absurd (omega arith)
  send_chunks_end (suc fuel) config env memory context p less =
      let turn = next_chunk-IsTurn (env 0) context in
      elim (Result-cases (next_chunk (env 0) context).0) [
        | inl (e, over) ↦
            rw (send_chunks, over)
              (turn_err (unread context) (next_chunk (env 0) context) e turn over)
        | inr (chunk, more) ↦
            let context' = (next_chunk (env 0) context).1 in
            let less' = turn_ok (unread context) (next_chunk (env 0) context) chunk turn more in
            let p' = (send_chunk r clock garbage config (memory 0).0 (memory 0).1 chunk p).1 in
            elim (send_chunk_codes config (memory 0).0 (memory 0).1 chunk p) [
              | inl sent ↦
                  rw (send_chunks, more, sent)
                    (send_chunks_end fuel config (λ i. env (suc i)) (λ i. memory (suc i)) context'
                      p' (omega (arith, less, less')))
              | inr stop ↦ rw (send_chunks, more, stop.0) stop
            ]
      ]

  finished :
      (config : Config) (x : Option (ErrorCode × Progress W))
      → EndsWithError x
      → (e : ErrorCode) × (last : W) × (finished_upload r clock garbage config x
          ≡ some (err e, last))
        × (failed e ≡ true)
  unfolding finish_upload
  finished config none h = absurd h
  finished config (some (e, p)) h = (e, p.world, rw (finish_upload, h.1) refl, h.0)

  -- An upload of a file ends, when its loop has a turn for each byte and one more, and never with
  -- SUCCESS: the chunker reports the end of a file with FILE_NOT_FOUND, and the loop waits for EOF.
  pub upload_fails :
      (fuel : ℕ) (env : ℕ → Env) (memory : ℕ → Bool × Bool) (stat_size : Option ℕ)
      (system : InitWorld) (time : ℕ → ℕ) (context : Context) (local_path remote_name : List ℕ)
      (w : W)
      → bytes_opened system < fuel
      → (e : ErrorCode) × (last : W) × (upload r clock garbage fuel env memory stat_size system time
            context local_path remote_name w
          ≡ some (err e, last))
        × (failed e ≡ true)
  unfolding upload
  upload_fails fuel env memory stat_size system time context local_path remote_name w less =
      elim (Option-cases (ready context)) [
        | inl e ↦ (invalid_argument, w, rw (upload, e) refl, refl)
        | inr (config, set) ↦ elim (Option-cases stat_size) [
          | inl e ↦ (file_not_found, w, rw (upload, set, e) refl, refl)
          | inr (size, known) ↦
              let started = chunker_init-IsStart local_path config.chunk_size system in
              elim (Result-cases (chunker_init local_path config.chunk_size system)) [
                | inl (e, f) ↦ (
                  e,
                  w,
                  rw (upload, set, known, f) refl,
                  subst (IsStart (bytes_opened system)) f started,
                )
                | inr (chunker, f) ↦
                    let from_start : unread chunker ≡ bytes_opened system =
                      subst (IsStart (bytes_opened system)) f started in
                    let p : Progress W = record {
                      world = w;
                      manifest = manifest_init remote_name size time;
                      processed = 0;
                      number = 0;
                      retries = 0;
                    } in
                    let (e, last, ends, stops) =
                      finished config (send_chunks r clock garbage fuel config env memory chunker p)
                        (send_chunks_end fuel config env memory chunker p
                          (omega (arith, less, from_start))) in
                    (e, last, rw (upload, set, known, f) ends, stops)
              ]
        ]
      ]
