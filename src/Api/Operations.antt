-- ===== src/Api/Operations.antt =====
-- `netchunk_delete`, `netchunk_verify`, `netchunk_health_check` and `netchunk_list_files` of
-- src/netchunk.c, over any FTP client. Progress callbacks are left out.
use net_chunk.Base.{
  ℕ, zero, suc, ◌+◌, Bool, false, not, ◌&&◌, ◌||◌, none, some, List, [], ◌∷◌, ltb, if◌then◌else◌,
  u32, ErrorCode, invalid_argument, failed, Result, ok, err,
}
use net_chunk.Base.Int.{pos, ltb_ℤ, ◌-ℤ◌, pos_part}
use net_chunk.Libc.Text.{same_text}
use net_chunk.Chunker.Types.{Location, Chunk}
use net_chunk.Chunker.Chunk.{verify_integrity}
use net_chunk.Config.Types.{Server, Config}
use net_chunk.Manifest.Types.{FileManifest, chunks_of}
use net_chunk.Ftp.Remote.{Remote, with_pointer}
use net_chunk.Repair.Types.{live, find_server_by_id}
use net_chunk.Api.Types.{Context, ready}

-- Whether a location is on the server.
unfoldable pub has_server : List ℕ → List Location → Bool
has_server key [] = false
has_server key (l ∷ ls) = same_text l.server_id key || has_server key ls

module _ {W : Type 0} (r : Remote W) where
  -- The loop over the locations of a chunk; the answers of the servers are not looked at.
  unfoldable pub delete_locations : Config → Chunk → List Location → W → W
  delete_locations config c [] w = w
  delete_locations config c (l ∷ ls) w = elim (find_server_by_id config l.server_id) [
    | none ↦ delete_locations config c ls w
    | some server ↦ delete_locations config c ls (r.delete_chunk server c w).1
  ]

  unfoldable pub delete_chunks : Config → List Chunk → W → W
  delete_chunks config [] w = w
  delete_chunks config (c ∷ cs) w =
      delete_chunks config cs (delete_locations config c c.locations w)

  unfoldable pub delete : FileManifest → Context → List ℕ → W → ErrorCode × W
  delete unset context remote_name w = elim (ready context) [
    | none ↦ (invalid_argument, w)
    | some config ↦
        let (code, (m, w1)) = r.download_manifest config remote_name unset w in
        if failed code
        then (code, w1)
        else r.delete_manifest config remote_name (delete_chunks config (chunks_of m) w1)
  ]

  -- The loop over the replicas of a chunk, which is changed in place: the healthy ones.
  unfoldable pub verify_locations : Config → List Location → Chunk → W → ℕ × (Chunk × W)
  verify_locations config [] c w = (0, (c, w))
  verify_locations config (l ∷ ls) c w = elim (find_server_by_id config l.server_id) [
    | none ↦ verify_locations config ls c w
    | some server ↦
        let (code, (pointer, w1)) = r.download_chunk server c w in
        let c1 = with_pointer c pointer in
        let (n, rest) = verify_locations config ls c1 w1 in
        ((if not (failed code) && not (failed (verify_integrity c1)) then suc n else n), rest)
  ]

  -- The loop over the servers while `target` replicas are missing: the uploads that succeed.
  unfoldable pub replicate_chunk : List Server → ℕ → Chunk → W → ℕ × W
  replicate_chunk [] target c w = (0, w)
  replicate_chunk (s ∷ ss) zero c w = (0, w)
  replicate_chunk (s ∷ ss) (suc target) c w =
      if has_server s.id c.locations
      then replicate_chunk ss (suc target) c w
      else (let (code, w1) = r.upload_chunk s c w in
          if failed code
          then replicate_chunk ss (suc target) c w1
          else (let (n, w2) = replicate_chunk ss target c w1 in (suc n, w2)))

  -- One chunk: the number of its repairs.
  unfoldable pub verify_chunk : Config → Bool → Chunk → W → ℕ × W
  verify_chunk config repair c w =
      let (healthy, (c1, w1)) = verify_locations config c.locations c w in
      if repair && (ltb_ℤ (pos healthy) config.replication_factor && ltb 0 healthy)
      then replicate_chunk (live config) (pos_part (config.replication_factor -ℤ pos healthy)) c1 w1
      else (0, w1)

  unfoldable pub verify_chunks : Config → Bool → List Chunk → W → (ℕ × ℕ) × W
  verify_chunks config repair [] w = ((0, 0), w)
  verify_chunks config repair (c ∷ cs) w =
      let (n, w1) = verify_chunk config repair c w in
      let ((verified, repaired), w2) = verify_chunks config repair cs w1 in
      ((suc verified, n + repaired), w2)

  -- The chunks verified and the repairs, as 32-bit counts.
  unfoldable pub verify : FileManifest → Context → List ℕ → Bool → W → Result (ℕ × ℕ) × W
  verify unset context remote_name repair w = elim (ready context) [
    | none ↦ (err invalid_argument, w)
    | some config ↦
        let (code, (m, w1)) = r.download_manifest config remote_name unset w in
        if failed code
        then (err code, w1)
        else (let ((verified, repaired), w2) = verify_chunks config repair (chunks_of m) w1 in
            (ok (u32 verified, u32 repaired), w2))
  ]

  unfoldable pub count_reachable : List Server → W → ℕ × W
  count_reachable [] w = (0, w)
  count_reachable (s ∷ ss) w =
      let (code, w1) = r.test_connection s w in
      let (n, w2) = count_reachable ss w1 in ((if failed code then n else suc n), w2)

  -- The healthy servers and all servers.
  unfoldable pub health_check : Context → W → Result (ℕ × ℕ) × W
  health_check context w = elim (ready context) [
    | none ↦ (err invalid_argument, w)
    | some config ↦
        let (n, w1) = count_reachable (live config) w in (ok (n, config.server_count), w1)
  ]

  unfoldable pub list_files : Context → W → Result (List FileManifest) × W
  list_files context w = elim (ready context) [
    | none ↦ (err invalid_argument, w)
    | some config ↦
        let (code, (files, w1)) = r.list_manifests config w in
        ((if failed code then err code else ok files), w1)
  ]
