-- ===== src/Repair/HealthLaws.antt =====
-- The counts of replicas in src/repair.c.
use mathlib.Core.Path.{subst}
use net_chunk.Base.{
  ℕ, ◌+◌, ◌<◌, Bool, true, false, not, ◌&&◌, some, List, [], ◌∷◌, ◌≡◌, refl, sym, ap, ◌∙◌, arith,
  ◌↔◌, ◌⊎◌, length, inl, inr, Bool-cases, Option-cases, ErrorCode, success, failed, failed_cases,
  ok,
}
use net_chunk.Base.Int.{ℤ, pos, ◌≤ℤ◌}
use net_chunk.Chunker.Types.{Location, Chunk}
use net_chunk.Chunker.Chunk.{verify_integrity}
use net_chunk.Config.Types.{Server, Config}
use net_chunk.Ftp.Remote.{Remote, Pointer, with_pointer}
use net_chunk.Repair.Types.{
  RepairContext, ChunkHealth, healthy, critical, lost, ready, find_server_by_id,
}
use net_chunk.Repair.Health.{
  health_of, check_replica, count_healthy, check_chunk_health, settle_replica, keep_valid,
  cleanup_chunk,
}

health_of_lem :
    (n : ℕ) (factor : ℤ)
    → ((health_of n factor ≡ lost) ↔ (n ≡ 0))
      × ((health_of n factor ≡ critical) ↔ (n ≡ 1))
      × ((health_of n factor ≡ healthy) ↔ ((1 < n) × (factor ≤ℤ pos n)))
unfolding health_of
health_of_lem n factor = ground arith

-- What the servers answer to the download of a chunk: a code and the data, if there are any.
abbrev pub Answers : Type 0
Answers = Server → ErrorCode × Pointer

-- The server of the location is known, its download succeeds, and the data that it gives verify.
abbrev pub IsGood : Answers → Config → Chunk → Location → Type 0
IsGood answers config chunk l =
    (server : Server) × (find_server_by_id config l.server_id ≡ some server)
    × ((answers server).0 ≡ success)
    × (verify_integrity (with_pointer chunk (answers server).1) ≡ success)

-- The second list is the locations of the first that are good, in their order.
abbrev pub AreGoodOnes : Answers → Config → Chunk → List Location → List Location → Type 0
AreGoodOnes answers config chunk [] kept_ones = kept_ones ≡ []
AreGoodOnes answers config chunk (l ∷ ls) kept_ones =
    (IsGood answers config chunk l
      × ((rest : List Location) × (kept_ones ≡ l ∷ rest)
          × AreGoodOnes answers config chunk ls rest))
    ⊎ (¬ IsGood answers config chunk l × AreGoodOnes answers config chunk ls kept_ones)

module _ {W : Type 0} (r : Remote W) where
  keep_valid_count :
      (config : Config) (chunk : Chunk) (ls : List Location) (w : W)
      → let (rest, (n, last)) = keep_valid r config chunk ls w in length rest + n ≡ length ls
  unfolding keep_valid
  keep_valid_count config chunk [] w = refl
  keep_valid_count config chunk (l ∷ ls) w =
      elim (Option-cases (find_server_by_id config l.server_id)) [
        | inl e ↦ ground (arith, e, keep_valid_count config chunk ls w)
        | inr (server, e) ↦
            ground (arith, e, keep_valid_count config chunk ls (settle_replica r server chunk w).1)
      ]

  module _ (answers : Answers) (config : Config) (chunk : Chunk)
      (steady : (server : Server) (w : W)
        → ((r.download_chunk server chunk w).0 ≡ (answers server).0)
          × ((r.download_chunk server chunk w).1.0 ≡ (answers server).1)) where
    verdict : Server → Bool
    verdict server =
        not (failed (answers server).0)
        && not (failed (verify_integrity (with_pointer chunk (answers server).1)))

    verdict_iff :
        (server : Server)
        → (verdict server ≡ true) ↔ (
            ((answers server).0 ≡ success)
            × (verify_integrity (with_pointer chunk (answers server).1) ≡ success))
    unfolding verdict
    verdict_iff server = elim (failed_cases (answers server).0) [
      | inr bad ↦ (λ e. absurd (ground (arith, bad, e)), λ h. absurd (ground (arith, bad, h.0)))
      | inl fine ↦ elim (failed_cases (verify_integrity (with_pointer chunk (answers server).1))) [
        | inr bad ↦ (λ e. absurd (ground (arith, bad, e)), λ h. absurd (ground (arith, bad, h.1)))
        | inl intact ↦ (λ e. (fine, intact), λ h. rw (verdict, fine, intact) refl)
      ]
    ]

    not_good :
        (server found : Server)
        → verdict server ≡ false
        → some server ≡ some found
        → ((answers found).0 ≡ success)
          × (verify_integrity (with_pointer chunk (answers found).1) ≡ success)
        → ⊥
    not_good server found v q h =
        let same : found ≡ server = ground (arith, q) in
        let good = (verdict_iff found).1 h in
        let still : verdict server ≡ true = subst (λ s. verdict s ≡ true) same good in cc (v, still)

    check_replica-verdict :
        (server : Server) (w : W) → (check_replica r server chunk w).0 ≡ verdict server
    unfolding check_replica verdict
    check_replica-verdict server w =
        rw (check_replica, verdict, (steady server w).0, (steady server w).1) refl

    settle_replica-verdict :
        (server : Server) (w : W) → (settle_replica r server chunk w).0 ≡ verdict server
    unfolding settle_replica check_replica
    settle_replica-verdict server w = ground (arith, check_replica-verdict server w)

    count_healthy-keep_valid :
        (ls : List Location) (w w' : W)
        → (count_healthy r config chunk ls w).0 ≡ length (keep_valid r config chunk ls w').0
    unfolding count_healthy keep_valid
    count_healthy-keep_valid [] w w' = refl
    count_healthy-keep_valid (l ∷ ls) w w' =
        elim (Option-cases (find_server_by_id config l.server_id)) [
          | inl e ↦ ground (arith, e, count_healthy-keep_valid ls w w')
          | inr (server, e) ↦ ground (
            arith,
            e,
            check_replica-verdict server w,
            settle_replica-verdict server w',
            count_healthy-keep_valid ls (check_replica r server chunk w).1
                (settle_replica r server chunk w').1,
          )
        ]

    keep_valid-AreGoodOnes :
        (ls : List Location) (w : W)
        → AreGoodOnes answers config chunk ls (keep_valid r config chunk ls w).0
    unfolding keep_valid
    keep_valid-AreGoodOnes [] w = refl
    keep_valid-AreGoodOnes (l ∷ ls) w = elim (Option-cases (find_server_by_id config l.server_id)) [
      | inl e ↦ rw (keep_valid, e) (inr (λ g. cc g.1, keep_valid-AreGoodOnes ls w))
      | inr (server, e) ↦
          let rest = keep_valid-AreGoodOnes ls (settle_replica r server chunk w).1 in
          elim (Bool-cases (verdict server)) [
            | inl v ↦
                let (fine, intact) = (verdict_iff server).0 v in
                rw (keep_valid, e, settle_replica-verdict server w ∙ v)
                  (inl ((server, refl, fine, intact), (_, refl, rest)))
            | inr v ↦
                rw (keep_valid, e, settle_replica-verdict server w ∙ v)
                  (inr (λ g. not_good server g.0 v g.1 (g.2, g.3), rest))
          ]
    ]

    -- While the servers' answers stay the same, a cleanup after a check keeps, in their order, exactly
    -- the locations whose server is known and whose download succeeds with data that verify. The check
    -- counts as many replicas; those removed and those kept are all; the check calls the chunk lost
    -- exactly if none is kept, critical exactly if one is, and healthy exactly if at least two are and
    -- as many as the replication factor asks.
    pub cleanup_chunk-check_chunk_health :
        (context : RepairContext) (w w' : W) (h : ChunkHealth) (n removed : ℕ) (chunk' : Chunk)
        → ready context ≡ some config
        → (check_chunk_health r context chunk w).0 ≡ ok (h, n)
        → (cleanup_chunk r context chunk w').0 ≡ ok (chunk', removed)
        → AreGoodOnes answers config chunk chunk.locations chunk'.locations
          × (length chunk'.locations ≡ n)
          × (n + removed ≡ length chunk.locations)
          × ((h ≡ lost) ↔ (length chunk'.locations ≡ 0))
          × ((h ≡ critical) ↔ (length chunk'.locations ≡ 1))
          × ((h ≡ healthy) ↔ (
              (1 < length chunk'.locations)
              × (config.replication_factor ≤ℤ pos (length chunk'.locations))))
    unfolding check_chunk_health cleanup_chunk
    cleanup_chunk-check_chunk_health context w w' h n removed chunk' set checked cleaned =
        let kept_ones : (keep_valid r config chunk chunk.locations w').0 ≡ chunk'.locations =
          ground (arith, set) in
        let gone : removed ≡ (keep_valid r config chunk chunk.locations w').1.0 =
          ground (arith, set) in
        let counted : n ≡ (count_healthy r config chunk chunk.locations w).0 =
          ground (arith, set) in
        let classed : h ≡ health_of n config.replication_factor = ground (arith, set) in
        let same : length chunk'.locations ≡ n =
          sym (counted ∙ count_healthy-keep_valid chunk.locations w w' ∙ ap length kept_ones) in
        let (is_lost, is_critical, is_healthy) = health_of_lem n config.replication_factor in
        (
          subst (AreGoodOnes answers config chunk chunk.locations) kept_ones
              (keep_valid-AreGoodOnes chunk.locations w'),
          same,
          omega (
            arith,
            same,
            gone,
            ap length kept_ones,
            keep_valid_count config chunk chunk.locations w',
          ),
          rw (classed, same) is_lost,
          rw (classed, same) is_critical,
          rw (classed, same) is_healthy,
        )
