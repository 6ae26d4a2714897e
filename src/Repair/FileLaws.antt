-- ===== src/Repair/FileLaws.antt =====
-- The statistics of `netchunk_repair_file` in src/repair.c, and its mode that only verifies.
use net_chunk.Base.{
  ℕ, ◌+◌, ◌^◌, ◌≤◌, ◌<◌, some, List, [], ◌∷◌, ◌≡◌, refl, ◌∙◌, arith, length, length-take, not, ◌&&◌,
  inl, inr, Bool-cases, Option-cases, Result-cases, success, failed, Result, ok, err,
}
use net_chunk.Base.Int.{ℤ}
use net_chunk.Chunker.Types.{Location, Chunk}
use net_chunk.Config.Types.{Server, Config}
use net_chunk.Manifest.Types.{FileManifest, chunks_of, array_of}
use net_chunk.Ftp.Remote.{Remote}
use net_chunk.Repair.Types.{
  RepairContext, RepairMode, verify_only, ChunkHealth, healthy, degraded, critical, lost,
  RepairStats, zero_stats, ready, find_server_by_id,
}
use net_chunk.Repair.Health.{
  health_of, check_replica, count_healthy, check_chunk_health, cleanup_chunk,
}
use net_chunk.Repair.Replicate.{repair_chunk}
use net_chunk.Repair.File.{
  count_health, count_removed, count_added, may_repair, is_healthy, is_lost, restore, tend_chunk,
  tend_chunks, repair_file,
}

-- The chunks that are classed so far.
abbrev pub classed : RepairStats → ℕ
classed s = s.chunks_healthy + s.chunks_degraded + s.chunks_critical + s.chunks_lost

-- One chunk more is classed, and the count of those verified stays.
abbrev IsNext : RepairStats → RepairStats → Type 0
IsNext s s' = (classed s' ≡ classed s + 1) × (s'.chunks_verified ≡ s.chunks_verified)

abbrev IsSame : RepairStats → RepairStats → Type 0
IsSame s s' = (classed s' ≡ classed s) × (s'.chunks_verified ≡ s.chunks_verified)

count_health-IsNext :
    (h : ChunkHealth) (s : RepairStats) → classed s + 1 < 2 ^ 32 → IsNext s (count_health h s)
count_health-IsNext healthy s small = (omega arith, refl)
count_health-IsNext degraded s small = (omega arith, refl)
count_health-IsNext critical s small = (omega arith, refl)
count_health-IsNext lost s small = (omega arith, refl)

-- No repair is counted.
abbrev pub IsQuiet : RepairStats → RepairStats → Type 0
IsQuiet s s' =
    (s'.replicas_added ≡ s.replicas_added)
    × (s'.replicas_removed ≡ s.replicas_removed)
    × (s'.chunks_repaired ≡ s.chunks_repaired)

abbrev pub IsQuietResult : Result RepairStats → Type 0
IsQuietResult (ok s) = IsQuiet zero_stats s
IsQuietResult (err code) = Unit

count_health-IsQuiet : (h : ChunkHealth) (s : RepairStats) → IsQuiet s (count_health h s)
count_health-IsQuiet healthy s = (refl, refl, refl)
count_health-IsQuiet degraded s = (refl, refl, refl)
count_health-IsQuiet critical s = (refl, refl, refl)
count_health-IsQuiet lost s = (refl, refl, refl)

count_removed-IsSame :
    (chunk : Chunk) (s : RepairStats) (x : Result (Chunk × ℕ))
    → IsSame s (count_removed chunk s x).1
count_removed-IsSame chunk s (ok a) = (refl, refl)
count_removed-IsSame chunk s (err code) = (refl, refl)

count_added-IsSame :
    (chunk : Chunk) (s : RepairStats) (x : Result (Chunk × ℕ)) → IsSame s (count_added chunk s x).1
count_added-IsSame chunk s (ok a) = ground arith
count_added-IsSame chunk s (err code) = (refl, refl)

module _ {W : Type 0} (r : Remote W) (clock : W → ℕ) (garbage : Location) where
  restore-IsSame :
      (context : RepairContext) (factor : ℤ) (h : ChunkHealth) (chunk : Chunk) (s : RepairStats)
      (w : W)
      → IsSame s (restore r clock garbage context factor h chunk s w).0.1
  unfolding restore
  restore-IsSame context factor h chunk s w =
      let (cleaned, w1) = cleanup_chunk r context chunk w in
      let (chunk1, s1) = count_removed chunk s cleaned in
      let (repaired, w2) = repair_chunk r clock garbage context chunk1 factor w1 in
      let a = count_removed-IsSame chunk s cleaned in
      let b = count_added-IsSame chunk1 s1 repaired in
      elim (Bool-cases (is_lost h)) [
        | inl e ↦ ground (arith, e, a)
        | inr e ↦ ground (arith, e, a, b)
      ]

  -- With a context that is ready the check of a chunk gives a health.
  check_ready :
      (context : RepairContext) (config : Config) (chunk : Chunk) (w : W)
      → ready context ≡ some config
      → let n = (count_healthy r config chunk chunk.locations w).0 in
        (check_chunk_health r context chunk w).0 ≡ ok (health_of n config.replication_factor, n)
  unfolding check_chunk_health
  check_ready context config chunk w set = ground (arith, set)

  tend_chunk-IsNext :
      (context : RepairContext) (config : Config) (mode : RepairMode) (factor : ℤ) (chunk : Chunk)
      (s : RepairStats) (w : W)
      → ready context ≡ some config
      → classed s + 1 < 2 ^ 32
      → IsNext s (tend_chunk r clock garbage context mode factor chunk s w).0.1
  unfolding tend_chunk
  tend_chunk-IsNext context config mode factor chunk s w set small =
      let n = (count_healthy r config chunk chunk.locations w).0 in
      let h = health_of n config.replication_factor in
      let w1 = (check_chunk_health r context chunk w).1 in
      let a = count_health-IsNext h s small in
      let b = restore-IsSame context factor h chunk (count_health h s) w1 in
      rw (tend_chunk, check_ready context config chunk w set)
        (elim (Bool-cases (may_repair mode && not (is_healthy h))) [
          | inl e ↦ rw e (omega (arith, a, b), b.1 ∙ a.1)
          | inr e ↦ rw e a
        ])

  tend_chunks_count :
      (context : RepairContext) (config : Config) (mode : RepairMode) (factor : ℤ) (cs : List Chunk)
      (s : RepairStats) (w : W)
      → ready context ≡ some config
      → classed s + length cs < 2 ^ 32
      → let s' = (tend_chunks r clock garbage context mode factor cs s w).0.1 in
        (classed s' ≡ classed s + length cs) × (s'.chunks_verified ≡ s.chunks_verified)
  unfolding tend_chunks
  tend_chunks_count context config mode factor [] s w set small = (omega arith, refl)
  tend_chunks_count context config mode factor (c ∷ cs) s w set small =
      let ((c', s1), w1) = tend_chunk r clock garbage context mode factor c s w in
      let a = tend_chunk-IsNext context config mode factor c s w set (omega arith) in
      let b = tend_chunks_count context config mode factor cs s1 w1 set (omega (arith, a)) in
      (omega (arith, a, b), b.1 ∙ a.1)

  -- When the repair of a file succeeds, every chunk of the manifest that was downloaded is classed
  -- exactly once: those healthy, degraded, critical and lost are together the chunks verified, which
  -- are the manifest's count. The array of the manifest has as many chunks as its count, which is
  -- below 2 ^ 32.
  pub repair_file_counts :
      (unset : FileManifest) (context : RepairContext) (config : Config) (remote_name : List ℕ)
      (mode : RepairMode) (w w1 : W) (m : FileManifest) (s : RepairStats)
      → ready context ≡ some config
      → r.download_manifest config remote_name unset w ≡ (success, (m, w1))
      → m.chunk_count < 2 ^ 32
      → m.chunk_count ≤ length (array_of m.chunks)
      → (repair_file r clock garbage unset context remote_name mode w).0 ≡ ok s
      → (classed s ≡ s.chunks_verified) × (s.chunks_verified ≡ m.chunk_count)
  unfolding repair_file
  repair_file_counts unset context config remote_name mode w w1 m s set got small full e =
      let start = record zero_stats { chunks_verified = m.chunk_count } in
      let counted =
        tend_chunks_count context config mode config.replication_factor (chunks_of m) start w1 set
          (omega (arith, small, length-take m.chunk_count (array_of m.chunks))) in
      let last : s
          ≡ (tend_chunks r clock garbage context mode config.replication_factor (chunks_of m) start
              w1).0.1 =
        ground (arith, set, got, e) in
      rw last
        (omega (arith, counted, full, length-take m.chunk_count (array_of m.chunks)), counted.1)

  module _ (Inv : W → Type 0)
      (download_keeps : (server : Server) (chunk : Chunk) (w : W)
        → Inv w
        → Inv (r.download_chunk server chunk w).1.1) where
    count_healthy_keeps :
        (config : Config) (chunk : Chunk) (ls : List Location) (w : W)
        → Inv w
        → Inv (count_healthy r config chunk ls w).1
    unfolding count_healthy check_replica
    count_healthy_keeps config chunk [] w i = i
    count_healthy_keeps config chunk (l ∷ ls) w i =
        elim (Option-cases (find_server_by_id config l.server_id)) [
          | inl e ↦ rw (count_healthy, e) (count_healthy_keeps config chunk ls w i)
          | inr (server, e) ↦
              rw (count_healthy, e)
                (count_healthy_keeps config chunk ls (check_replica r server chunk w).1
                  (download_keeps server chunk w i))
        ]

    check_chunk_health_keeps :
        (context : RepairContext) (chunk : Chunk) (w : W)
        → Inv w
        → Inv (check_chunk_health r context chunk w).1
    unfolding check_chunk_health
    check_chunk_health_keeps context chunk w i = elim (Option-cases (ready context)) [
      | inl e ↦ rw (check_chunk_health, e) i
      | inr (config, e) ↦
          rw (check_chunk_health, e) (count_healthy_keeps config chunk chunk.locations w i)
    ]

    tend_chunk_keeps :
        (context : RepairContext) (factor : ℤ) (chunk : Chunk) (s : RepairStats) (w : W)
        → Inv w
        → let ((chunk', s'), w') =
            tend_chunk r clock garbage context verify_only factor chunk s w in
          (chunk' ≡ chunk) × Inv w' × IsQuiet s s'
    unfolding tend_chunk
    tend_chunk_keeps context factor chunk s w i =
        let i1 = check_chunk_health_keeps context chunk w i in
        elim (Result-cases (check_chunk_health r context chunk w).0) [
          | inl (code, e) ↦ rw (tend_chunk, e) (refl, i1, (refl, refl, refl))
          | inr ((h, n), e) ↦ rw (tend_chunk, e) (refl, i1, count_health-IsQuiet h s)
        ]

    tend_chunks_keeps :
        (context : RepairContext) (factor : ℤ) (cs : List Chunk) (s : RepairStats) (w : W)
        → Inv w
        → let ((cs', s'), w') = tend_chunks r clock garbage context verify_only factor cs s w in
          Inv w' × IsQuiet s s'
    unfolding tend_chunks
    tend_chunks_keeps context factor [] s w i = (i, (refl, refl, refl))
    tend_chunks_keeps context factor (c ∷ cs) s w i =
        let ((c', s1), w1) = tend_chunk r clock garbage context verify_only factor c s w in
        let a = tend_chunk_keeps context factor c s w i in
        let b = tend_chunks_keeps context factor cs s1 w1 a.1 in
        (b.0, (b.1.0 ∙ a.2.0, b.1.1 ∙ a.2.1, b.1.2 ∙ a.2.2))

    -- In the mode that only verifies, a property of the servers that the downloads of chunks and
    -- manifests keep is kept by the repair of a file, whether it succeeds or not: nothing is
    -- uploaded or deleted. When it succeeds it reports no repair.
    pub repair_file_verify_only :
        (unset : FileManifest) (context : RepairContext) (remote_name : List ℕ) (w : W)
        → ((config : Config) (w : W)
            → Inv w
            → Inv (r.download_manifest config remote_name unset w).1.1)
        → Inv w
        → let (result, w') = repair_file r clock garbage unset context remote_name verify_only w in
          Inv w' × IsQuietResult result
    unfolding repair_file
    repair_file_verify_only unset context remote_name w manifest_keeps i =
        elim (Option-cases (ready context)) [
          | inl e ↦ rw (repair_file, e) (i, tt)
          | inr (config, e) ↦
              let (code, (m, w1)) = r.download_manifest config remote_name unset w in
              let i1 = manifest_keeps config w i in
              let start = record zero_stats { chunks_verified = m.chunk_count } in
              let b =
                tend_chunks_keeps context config.replication_factor (chunks_of m) start w1 i1 in
              elim (Bool-cases (failed code)) [
                | inl f ↦ rw (repair_file, e, f) (i1, tt)
                | inr f ↦ rw (repair_file, e, f) b
              ]
        ]
