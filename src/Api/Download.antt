-- ===== src/Api/Download.antt =====
-- `netchunk_download` of src/netchunk.c, over any FTP client. What `fopen`, `fwrite`, `fclose` and `remove` do are
-- arguments; progress callbacks are left out. The search for a server is the loop of
-- `find_server_by_id`, which the source writes out again.
use net_chunk.Base.{
  ℕ, zero, suc, ◌+◌, Bool, true, false, not, Option, none, some, List, [], ◌∷◌, ◌++◌, ◌==◌,
  if◌then◌else◌, min, take, u32, u64, invalid_argument, file_access, download_failed, failed,
  Result, ok, err,
}
use net_chunk.Base.Int.{pos_part}
use net_chunk.Chunker.Types.{Location, Chunk}
use net_chunk.Chunker.Chunk.{verify_integrity}
use net_chunk.Config.Types.{Server, Config}
use net_chunk.Libc.Files.{Closing, discarded}
use net_chunk.Manifest.Types.{FileManifest, chunks_of}
use net_chunk.Ftp.Remote.{Remote, with_pointer}
use net_chunk.Repair.Types.{find_server_by_id}
use net_chunk.Api.Types.{Context, Stats, ready}

-- The state of the loop: the servers, what `fwrite` took, the number of writes so far, and
-- the counts.
pub record Transfer (W : Type 0) : Type 0 where
  pub world : W
  pub file : List ℕ
  pub writes : ℕ
  pub retries : ℕ
  pub processed : ℕ

abbrev pub data_of : Chunk → List ℕ
data_of c = elim c.bytes [ none ↦ [] | some bytes ↦ bytes ]

module _ {W : Type 0} where
  -- What follows a try that is done or not: another try where it is not, the rest of the loop where
  -- it is.
  abbrev pub or_else :
      Bool × (Chunk × Transfer W)
      → (Chunk → Transfer W → Bool × (Chunk × Transfer W))
      → Bool × (Chunk × Transfer W)
  or_else (true, (c', s')) next = (true, (c', s'))
  or_else (false, (c', s')) next = next c' s'

  abbrev pub when_done :
      Bool × (Chunk × Transfer W) → (Transfer W → Bool × Transfer W) → Bool × Transfer W
  when_done (true, (c', s')) next = next s'
  when_done (false, (c', s')) next = (false, s')

module _ {W : Type 0} (r : Remote W) (accepted : ℕ → ℕ) where
  -- The call of `fwrite`, which takes at most `accepted i` bytes the `i`-th time.
  unfoldable pub write_chunk : Chunk → Transfer W → Bool × (Chunk × Transfer W)
  write_chunk c s =
      let written = min (accepted s.writes) c.size in
      let s' = record s { file = s.file ++ take written (data_of c); writes = suc s.writes } in
      if written == c.size
      then (true, (c, record s' { processed = u64 (s'.processed + c.size) }))
      else (false, (c, s'))

  -- One turn of the loop of attempts; the chunk is changed in place.
  unfoldable pub attempt : Server → Chunk → Transfer W → Bool × (Chunk × Transfer W)
  attempt server c s =
      let (code, (pointer, w)) = r.download_chunk server c s.world in
      let c' = with_pointer c pointer in
      if failed code
      then (false, (c', record s { world = w; retries = u32 (s.retries + 1) }))
      else if failed (verify_integrity c')
      then (false, (c', record s { world = w }))
      else write_chunk c' (record s { world = w })

  unfoldable pub attempts : ℕ → Server → Chunk → Transfer W → Bool × (Chunk × Transfer W)
  attempts zero server c s = (false, (c, s))
  attempts (suc n) server c s = or_else (attempt server c s) (attempts n server)

  -- The loop over the locations.
  unfoldable pub try_locations :
      Config → List Location → Chunk → Transfer W → Bool × (Chunk × Transfer W)
  try_locations config [] c s = (false, (c, s))
  try_locations config (l ∷ ls) c s = elim (find_server_by_id config l.server_id) [
    | none ↦ try_locations config ls c s
    | some server ↦
        or_else (attempts (pos_part config.max_retry_attempts) server c s) (try_locations config ls)
  ]

  -- The loop over the chunks: whether all were written.
  unfoldable pub fetch_chunks : Config → List Chunk → Transfer W → Bool × Transfer W
  fetch_chunks config [] s = (true, s)
  fetch_chunks config (c ∷ cs) s =
      when_done (try_locations config c.locations c s) (fetch_chunks config cs)

  abbrev pub start_transfer : W → Transfer W
  start_transfer w = record { world = w; file = []; writes = 0; retries = 0; processed = 0 }

  -- The statistics, the file at the path, which was `before`, and the servers. `unset` is what the
  -- variable of the manifest holds before it is filled, `opened` whether `fopen` succeeds. The results
  -- of `fclose` and `remove` are ignored.
  unfoldable pub download :
      FileManifest
      → Bool
      → Closing
      → Option (List ℕ)
      → Context
      → List ℕ
      → W
      → Result Stats × (Option (List ℕ) × W)
  download unset opened closing before context remote_name w = elim (ready context) [
    | none ↦ (err invalid_argument, (before, w))
    | some config ↦
        let (code, (m, w1)) = r.download_manifest config remote_name unset w in
        if failed code
        then (err code, (before, w1))
        else if not opened
        then (err file_access, (before, w1))
        else (let (done, s) = fetch_chunks config (chunks_of m) (start_transfer w1) in
            if not done then (err download_failed, (discarded closing s.file, s.world)) else (
              ok (record {
                bytes_processed = s.processed;
                chunks_processed = m.chunk_count;
                servers_used = config.server_count;
                retries_performed = s.retries;
              }),
              (some (closing.written_out s.file), s.world),
            ))
  ]
