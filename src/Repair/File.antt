-- ===== src/Repair/File.antt =====
-- The repair of a file and of all files in src/repair.c: `netchunk_repair_file` and
-- `netchunk_repair_all_files`, over any FTP client. Progress callbacks are left out.
use net_chunk.Base.{
  ℕ, ◌+◌, Bool, true, false, not, ◌&&◌, Option, none, some, List, [], ◌∷◌, ◌++◌, ltb, if◌then◌else◌,
  drop, u32, invalid_argument, failed, Result, ok, err,
}
use net_chunk.Base.Int.{ℤ}
use net_chunk.Chunker.Types.{Location, Chunk}
use net_chunk.Manifest.Types.{FileManifest, chunks_of}
use net_chunk.Ftp.Remote.{Remote}
use net_chunk.Repair.Types.{
  RepairContext, RepairMode, verify_only, auto, force, ChunkHealth, healthy, degraded, critical,
  lost, RepairStats, zero_stats, ready,
}
use net_chunk.Repair.Health.{check_chunk_health, cleanup_chunk}
use net_chunk.Repair.Replicate.{repair_chunk}

-- The `switch` over the health.
abbrev pub count_health : ChunkHealth → RepairStats → RepairStats
count_health healthy s = record s { chunks_healthy = u32 (s.chunks_healthy + 1) }
count_health degraded s = record s { chunks_degraded = u32 (s.chunks_degraded + 1) }
count_health critical s = record s { chunks_critical = u32 (s.chunks_critical + 1) }
count_health lost s = record s { chunks_lost = u32 (s.chunks_lost + 1) }

-- `repair_mode != NETCHUNK_REPAIR_VERIFY_ONLY`
abbrev pub may_repair : RepairMode → Bool
may_repair verify_only = false
may_repair auto = true
may_repair force = true

abbrev pub is_healthy : ChunkHealth → Bool
is_healthy healthy = true
is_healthy degraded = false
is_healthy critical = false
is_healthy lost = false

abbrev pub is_lost : ChunkHealth → Bool
is_lost healthy = false
is_lost degraded = false
is_lost critical = false
is_lost lost = true

-- A chunk, or the array of them, with the statistics so far.
abbrev pub count_removed : Chunk → RepairStats → Result (Chunk × ℕ) → Chunk × RepairStats
count_removed chunk s (ok (chunk', n)) =
    (chunk', record s { replicas_removed = u32 (s.replicas_removed + n) })
count_removed chunk s (err code) = (chunk, s)

abbrev pub count_added : Chunk → RepairStats → Result (Chunk × ℕ) → Chunk × RepairStats
count_added chunk s (ok (chunk', n)) =
    if ltb 0 n
    then (
      chunk',
      record s {
        replicas_added = u32 (s.replicas_added + n);
        chunks_repaired = u32 (s.chunks_repaired + 1);
      },
    )
    else (chunk', s)
count_added chunk s (err code) = (chunk, s)

-- The files that the statistics of one are added to.
abbrev pub add_stats : RepairStats → RepairStats → RepairStats
add_stats a b = record {
  chunks_verified = u32 (a.chunks_verified + b.chunks_verified);
  chunks_healthy = u32 (a.chunks_healthy + b.chunks_healthy);
  chunks_degraded = u32 (a.chunks_degraded + b.chunks_degraded);
  chunks_critical = u32 (a.chunks_critical + b.chunks_critical);
  chunks_lost = u32 (a.chunks_lost + b.chunks_lost);
  chunks_repaired = u32 (a.chunks_repaired + b.chunks_repaired);
  replicas_added = u32 (a.replicas_added + b.replicas_added);
  replicas_removed = u32 (a.replicas_removed + b.replicas_removed);
}

abbrev pub add_result : RepairStats → Result RepairStats → RepairStats
add_result total (ok s) = add_stats total s
add_result total (err code) = total

-- The array behind the pass over its first `count` elements.
abbrev pub put_chunks : FileManifest → List Chunk → FileManifest
put_chunks m done = record m { chunks = put m.chunks }
  where
    put : Option (List Chunk) → Option (List Chunk)
    put none = none
    put (some cs) = some (done ++ drop m.chunk_count cs)

module _ {W : Type 0} (r : Remote W) (clock : W → ℕ) (garbage : Location) where
  -- The cleanup, and new replicas unless the chunk is lost.
  unfoldable pub restore :
      RepairContext → ℤ → ChunkHealth → Chunk → RepairStats → W → (Chunk × RepairStats) × W
  restore context factor health chunk s w =
      let (cleaned, w1) = cleanup_chunk r context chunk w in
      let (chunk1, s1) = count_removed chunk s cleaned in
      if is_lost health
      then ((chunk1, s1), w1)
      else (let (repaired, w2) = repair_chunk r clock garbage context chunk1 factor w1 in
          (count_added chunk1 s1 repaired, w2))

  unfoldable pub tend_chunk :
      RepairContext → RepairMode → ℤ → Chunk → RepairStats → W → (Chunk × RepairStats) × W
  tend_chunk context mode factor chunk s w =
      let (checked, w1) = check_chunk_health r context chunk w in
      elim checked [
        | err code ↦ ((chunk, s), w1)
        | ok (health, n) ↦
            if may_repair mode && not (is_healthy health)
            then restore context factor health chunk (count_health health s) w1
            else ((chunk, count_health health s), w1)
      ]

  -- The loop over the chunks.
  unfoldable pub tend_chunks :
      RepairContext → RepairMode → ℤ → List Chunk → RepairStats → W → (List Chunk × RepairStats) × W
  tend_chunks context mode factor [] s w = (([], s), w)
  tend_chunks context mode factor (c ∷ cs) s w =
      let ((c', s1), w1) = tend_chunk context mode factor c s w in
      let ((cs', s2), w2) = tend_chunks context mode factor cs s1 w1 in ((c' ∷ cs', s2), w2)

  -- `unset` is what the variable of the manifest holds before it is filled.
  unfoldable pub repair_file :
      FileManifest → RepairContext → List ℕ → RepairMode → W → Result RepairStats × W
  repair_file unset context remote_name mode w = elim (ready context) [
    | none ↦ (err invalid_argument, w)
    | some config ↦
        let (code, (m, w1)) = r.download_manifest config remote_name unset w in
        if failed code
        then (err code, w1)
        else (let ((done, s), w2) =
              tend_chunks context mode config.replication_factor (chunks_of m)
                (record zero_stats { chunks_verified = m.chunk_count }) w1 in
            if may_repair mode && ltb 0 s.chunks_repaired
            then (ok s, (r.upload_manifest config (put_chunks m done) w2).1)
            else (ok s, w2))
  ]

  -- The loop over the files.
  unfoldable pub repair_files :
      FileManifest
      → RepairContext
      → RepairMode
      → List FileManifest
      → RepairStats
      → W
      → RepairStats × W
  repair_files unset context mode [] total w = (total, w)
  repair_files unset context mode (f ∷ fs) total w =
      let (one, w1) = repair_file unset context f.original_filename mode w in
      repair_files unset context mode fs (add_result total one) w1

  unfoldable pub repair_all_files :
      FileManifest → RepairContext → RepairMode → W → Result RepairStats × W
  repair_all_files unset context mode w = elim (ready context) [
    | none ↦ (err invalid_argument, w)
    | some config ↦
        let (code, (files, w1)) = r.list_manifests config w in
        if failed code
        then (err code, w1)
        else (let (total, w2) = repair_files unset context mode files zero_stats w1 in
            (ok total, w2))
  ]
