-- ===== src/Repair/Health.antt =====
-- The check and the cleanup of one chunk in src/repair.c: `netchunk_repair_check_chunk_health` and
-- `netchunk_repair_cleanup_chunk`, over any FTP client.
use net_chunk.Base.{
  ℕ, suc, Bool, true, false, not, ◌&&◌, none, some, List, [], ◌∷◌, ◌==◌, if◌then◌else◌,
  invalid_argument, failed, Result, ok, err,
}
use net_chunk.Base.Int.{ℤ, pos, ltb_ℤ}
use net_chunk.Chunker.Types.{Location, Chunk}
use net_chunk.Chunker.Chunk.{verify_integrity}
use net_chunk.Config.Types.{Server, Config}
use net_chunk.Ftp.Remote.{Remote, with_pointer}
use net_chunk.Repair.Types.{
  RepairContext, ChunkHealth, healthy, degraded, critical, lost, ready, find_server_by_id,
}

unfoldable pub health_of : ℕ → ℤ → ChunkHealth
health_of healthy_count replication_factor =
    if healthy_count == 0
    then lost
    else if healthy_count == 1
    then critical
    else if ltb_ℤ (pos healthy_count) replication_factor
    then degraded
    else healthy

module _ {W : Type 0} (r : Remote W) where
  -- One turn of the loop of the check: whether the replica is counted.
  unfoldable pub check_replica : Server → Chunk → W → Bool × W
  check_replica server chunk w =
      let (code, (pointer, w')) = r.download_chunk server chunk w in
      (not (failed code) && not (failed (verify_integrity (with_pointer chunk pointer))), w')

  -- The loop over the replicas.
  unfoldable pub count_healthy : Config → Chunk → List Location → W → ℕ × W
  count_healthy config chunk [] w = (0, w)
  count_healthy config chunk (l ∷ ls) w = elim (find_server_by_id config l.server_id) [
    | none ↦ count_healthy config chunk ls w
    | some server ↦
        let (valid, w') = check_replica server chunk w in
        let (n, last) = count_healthy config chunk ls w' in ((if valid then suc n else n), last)
  ]

  -- The health and the number of healthy replicas.
  unfoldable pub check_chunk_health : RepairContext → Chunk → W → Result (ChunkHealth × ℕ) × W
  check_chunk_health context chunk w = elim (ready context) [
    | none ↦ (err invalid_argument, w)
    | some config ↦
        let (n, last) = count_healthy config chunk chunk.locations w in
        (ok (health_of n config.replication_factor, n), last)
  ]

  -- One turn of the loop of the cleanup: whether the replica stays. A corrupted one is deleted from
  -- its server, whatever the answer.
  unfoldable pub settle_replica : Server → Chunk → W → Bool × W
  settle_replica server chunk w =
      let (code, (pointer, w')) = r.download_chunk server chunk w in
      if not (failed code) && not (failed (verify_integrity (with_pointer chunk pointer)))
      then (true, w')
      else (false, (r.delete_chunk server chunk w').1)

  -- The loop of the cleanup: the locations that stay, and how many do not.
  unfoldable pub keep_valid : Config → Chunk → List Location → W → List Location × (ℕ × W)
  keep_valid config chunk [] w = ([], (0, w))
  keep_valid config chunk (l ∷ ls) w = elim (find_server_by_id config l.server_id) [
    | none ↦ let (rest, (n, last)) = keep_valid config chunk ls w in (rest, (suc n, last))
    | some server ↦
        let (valid, w') = settle_replica server chunk w in
        let (rest, (n, last)) = keep_valid config chunk ls w' in
        if valid then (l ∷ rest, (n, last)) else (rest, (suc n, last))
  ]

  -- The chunk and the number of replicas removed.
  unfoldable pub cleanup_chunk : RepairContext → Chunk → W → Result (Chunk × ℕ) × W
  cleanup_chunk context chunk w = elim (ready context) [
    | none ↦ (err invalid_argument, w)
    | some config ↦
        let (rest, (n, last)) = keep_valid config chunk chunk.locations w in
        (ok (record chunk { locations = rest }, n), last)
  ]
