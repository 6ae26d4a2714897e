-- ===== src/Api/Upload.antt =====
-- `netchunk_upload` of src/netchunk.c, over any FTP client: the chunks that the chunker reads are
-- sent to servers and entered in a manifest. What the file system and the memory answer are
-- arguments; progress callbacks are left out.
use net_chunk.Base.{
  ℕ, zero, suc, ◌+◌, Bool, true, false, not, Option, none, some, List, [], ◌∷◌, ◌++◌, ltb, ◌==◌,
  if◌then◌else◌, length, u32, u64, ErrorCode, success, invalid_argument, file_not_found,
  upload_failed, eof, failed, Result, ok, err,
}
use net_chunk.Base.Int.{pos, pos_part, ltb_ℤ}
use net_chunk.Chunker.Types.{Location, Chunk, max_chunk_locations}
use net_chunk.Chunker.Stream.{Env, InitWorld, chunker_init, next_chunk}
use net_chunk.Chunker.Stream
use net_chunk.Config.Types.{Server, Config}
use net_chunk.Manifest.Types.{FileManifest}
use net_chunk.Manifest.Build.{manifest_init, add_chunk}
use net_chunk.Ftp.Remote.{Remote}
use net_chunk.Repair.Types.{live}
use net_chunk.Repair.Replicate.{placed}
use net_chunk.Api.Types.{Context, Stats, ready}

-- A chunk while it is sent: its copies so far and the retries.
pub record Sending (W : Type 0) : Type 0 where
  pub world : W
  pub chunk : Chunk
  pub copies : ℕ
  pub retries : ℕ

-- The state of the loop over the chunks.
pub record Progress (W : Type 0) : Type 0 where
  pub world : W
  pub manifest : FileManifest
  pub processed : ℕ
  pub number : ℕ
  pub retries : ℕ

-- The test for the end of the file.
abbrev pub is_eof : ErrorCode → Bool
is_eof eof = true
is_eof code = false

module _ {W : Type 0} (r : Remote W) (clock : W → ℕ) (garbage : Location) where
  -- A copy that a server has taken; a full table gets no entry.
  unfoldable pub note_copy : Server → Sending W → Sending W
  note_copy server s =
      if ltb (length s.chunk.locations) max_chunk_locations
      then record s {
        chunk = record s.chunk {
          locations = s.chunk.locations ++ (placed garbage server (clock s.world) ∷ []);
        };
        copies = suc s.copies;
      }
      else record s { copies = suc s.copies }

  -- The loop of attempts.
  unfoldable pub send_attempts : ℕ → Server → Sending W → Sending W
  send_attempts zero server s = s
  send_attempts (suc n) server s =
      let (code, w) = r.upload_chunk server s.chunk s.world in
      let again = send_attempts n server (record s { world = w; retries = u32 (s.retries + 1) }) in
      if failed code then again else note_copy server (record s { world = w })

  -- The loop over the servers.
  unfoldable pub spread_chunk : Config → List Server → Sending W → Sending W
  spread_chunk config [] s = s
  spread_chunk config (server ∷ ss) s =
      let rest =
        spread_chunk config ss (send_attempts (pos_part config.max_retry_attempts) server s) in
      if ltb_ℤ (pos s.copies) config.replication_factor then rest else s

  -- The body of the loop over the chunks; `grown` and `copied` are the answers of the memory.
  unfoldable pub send_chunk : Config → Bool → Bool → Chunk → Progress W → ErrorCode × Progress W
  send_chunk config grown copied chunk p =
      let s =
        spread_chunk config (live config)
          (record { world = p.world; chunk = chunk; copies = 0; retries = p.retries }) in
      let (code, m) = add_chunk p.manifest s.chunk grown copied in
      let p' = record p { world = s.world; retries = s.retries } in
      if s.copies == 0
      then (upload_failed, p')
      else if failed code
      then (code, record p' { manifest = m })
      else (
        success,
        record p' {
          manifest = m;
          processed = u64 (p.processed + s.chunk.size);
          number = u32 (p.number + 1);
        },
      )

  -- The loop over the chunks: the code that ends it, and `none` where `fuel` turns are not enough.
  unfoldable pub send_chunks :
      ℕ
      → Config
      → (ℕ → Env)
      → (ℕ → Bool × Bool)
      → Stream.Context
      → Progress W
      → Option (ErrorCode × Progress W)
  send_chunks zero config env memory context p = none
  send_chunks (suc fuel) config env memory context p =
      let (result, context') = next_chunk (env 0) context in
      elim result [
        | err e ↦ some (e, p)
        | ok chunk ↦
            let (code, p') = send_chunk config (memory 0).0 (memory 0).1 chunk p in
            let rest =
              send_chunks fuel config (λ i. env (suc i)) (λ i. memory (suc i)) context' p' in
            if failed code then some (code, p') else rest
      ]

  -- The part behind the loop.
  unfoldable pub finish_upload : Config → ErrorCode × Progress W → Result Stats × W
  finish_upload config (e, p) =
      let (code, w) = r.upload_manifest config p.manifest p.world in
      if not (is_eof e) then (err e, p.world) else if failed code then (err code, w) else (
        ok (record {
          bytes_processed = p.processed;
          chunks_processed = p.number;
          servers_used = config.server_count;
          retries_performed = p.retries;
        }),
        w,
      )

  abbrev pub finished_upload : Config → Option (ErrorCode × Progress W) → Option (Result Stats × W)
  finished_upload config none = none
  finished_upload config (some end) = some (finish_upload config end)

  -- `stat_size` is the size that `stat` answers, `system` what the chunker's start is answered,
  -- `time` the clock of the manifest.
  unfoldable pub upload :
      ℕ
      → (ℕ → Env)
      → (ℕ → Bool × Bool)
      → Option ℕ
      → InitWorld
      → (ℕ → ℕ)
      → Context
      → List ℕ
      → List ℕ
      → W
      → Option (Result Stats × W)
  upload fuel env memory stat_size system time context local_path remote_name w =
      elim (ready context) [
        | none ↦ some (err invalid_argument, w)
        | some config ↦ (elim stat_size [
          | none ↦ some (err file_not_found, w)
          | some size ↦ (elim (chunker_init local_path config.chunk_size system) [
            | err e ↦ some (err e, w)
            | ok chunker ↦ finished_upload config (
                send_chunks fuel config env memory chunker (record {
                  world = w;
                  manifest = manifest_init remote_name size time;
                  processed = 0;
                  number = 0;
                  retries = 0;
                }))
          ])
        ])
      ]
