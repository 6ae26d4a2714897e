-- ===== src/Chunker/StatsLaws.antt =====
-- The functions over an array of chunks (src/chunker.c), against sums and bounds.
use net_chunk.Base.{
  ℕ, suc, ◌+◌, ◌^◌, ◌≤◌, ◌<◌, true, some, List, [], ◌∷◌, ◌≡◌, ◌↔◌, refl, sym, ◌∙◌, ◌⊎◌, arith,
  length, All, inl, inr,
}
use mathlib.Core.Path.{subst}
use net_chunk.Base.Int.{ℤ, pos, ◌≤ℤ◌}
use net_chunk.Chunker.Types.{Chunk, location_count}
use net_chunk.Chunker.Stats.{
  have_replicas, verify_chunk_replicas, Statistics, count_chunk, count_chunks, get_chunk_statistics,
}

have_replicas_iff :
    (cs : List Chunk) (m : ℤ)
    → (have_replicas cs m ≡ true) ↔ All (λ c. m ≤ℤ pos (location_count c)) cs
unfolding have_replicas
have_replicas_iff [] m = (λ h. tt, λ h. refl)
have_replicas_iff (c ∷ cs) m = (
  λ h. (ground arith, (have_replicas_iff cs m).0 (ground arith)),
  λ h. ground (arith, h.0, (have_replicas_iff cs m).1 h.1),
)

-- The test answers true exactly when there is a chunk, the number asked for is positive, and
-- every chunk has that many locations.
pub verify_chunk_replicas_iff :
    (cs : List Chunk) (m : ℤ)
    → (verify_chunk_replicas cs m ≡ true)
      ↔ ((0 < length cs) × (pos 1 ≤ℤ m) × All (λ c. m ≤ℤ pos (location_count c)) cs)
unfolding verify_chunk_replicas
verify_chunk_replicas_iff cs m = (
  λ h. (ground arith, ground arith, (have_replicas_iff cs m).0 (ground arith)),
  λ h. ground (arith, h.0, h.1, (have_replicas_iff cs m).1 h.2),
)

-- The sums over the chunks.
abbrev pub sum_sizes : List Chunk → ℕ
sum_sizes [] = 0
sum_sizes (c ∷ cs) = c.size + sum_sizes cs

abbrev pub sum_replicas : List Chunk → ℕ
sum_replicas [] = 0
sum_replicas (c ∷ cs) = location_count c + sum_replicas cs

-- Some chunk has this number of locations.
abbrev pub Has : ℕ → List Chunk → Type 0
Has n [] = ⊥
Has n (c ∷ cs) = (location_count c ≡ n) ⊎ Has n cs

-- Every chunk's number of locations is within the bounds.
abbrev pub AreWithin : ℕ → ℕ → List Chunk → Type 0
AreWithin a b cs = All (λ c. (a ≤ location_count c) × (location_count c ≤ b)) cs

-- What a run over the chunks does to the statistics.
record IsCount (s : Statistics) (cs : List Chunk) (t : Statistics) : Type 0 where
  sized : t.total_size ≡ s.total_size + sum_sizes cs
  summed : t.replica_sum ≡ s.replica_sum + sum_replicas cs
  counted : t.chunk_count ≡ s.chunk_count
  below : t.min_replicas ≤ s.min_replicas
  above : s.max_replicas ≤ t.max_replicas
  least : (t.min_replicas ≡ s.min_replicas) ⊎ Has t.min_replicas cs
  greatest : (t.max_replicas ≡ s.max_replicas) ⊎ Has t.max_replicas cs
  within : AreWithin t.min_replicas t.max_replicas cs

count_chunk-IsCount :
    (s : Statistics) (c : Chunk)
    → s.total_size + c.size < 2 ^ 64
    → IsCount s (c ∷ []) (count_chunk s c)
unfolding count_chunk
count_chunk-IsCount s c fits = record {
  sized = ground arith;
  summed = omega arith;
  counted = refl;
  below = ground arith;
  above = ground arith;
  least = ground arith;
  greatest = ground arith;
  within = ground arith;
}

Has-at : (a b : ℕ) (cs : List Chunk) → a ≡ b → Has a cs → Has b cs
Has-at a b cs e h = subst (λ n. Has n cs) e h

-- Runs, one after the other.
IsCount-cons :
    (s t u : Statistics) (c : Chunk) (cs : List Chunk)
    → IsCount s (c ∷ []) t
    → IsCount t cs u
    → IsCount s (c ∷ cs) u
IsCount-cons s t u c cs p q = record {
  sized = omega (arith, p.sized, q.sized);
  summed = omega (arith, p.summed, q.summed);
  counted = q.counted ∙ p.counted;
  below = omega (arith, p.below, q.below);
  above = omega (arith, p.above, q.above);
  least = elim (q.least) [
    | inr h ↦ inr (inr h)
    | inl e ↦ elim (p.least) [
      | inl d ↦ inl (e ∙ d)
      | inr (inl h) ↦ inr (inl (h ∙ sym e))
      | inr (inr h) ↦ absurd h
    ]
  ];
  greatest = elim (q.greatest) [
    | inr h ↦ inr (inr h)
    | inl e ↦ elim (p.greatest) [
      | inl d ↦ inl (e ∙ d)
      | inr (inl h) ↦ inr (inl (h ∙ sym e))
      | inr (inr h) ↦ absurd h
    ]
  ];
  within = ((omega (arith, p.within.0.0, q.below), omega (arith, p.within.0.1, q.above)), q.within);
}

count_chunks-IsCount :
    (s : Statistics) (cs : List Chunk)
    → s.total_size + sum_sizes cs < 2 ^ 64
    → IsCount s cs (count_chunks s cs)
unfolding count_chunks
count_chunks-IsCount s [] fits = record {
  sized = omega arith;
  summed = omega arith;
  counted = refl;
  below = omega arith;
  above = omega arith;
  least = inl refl;
  greatest = inl refl;
  within = tt;
}
count_chunks-IsCount s (c ∷ cs) fits =
    let first = count_chunk-IsCount s c (omega (arith, fits)) in
    IsCount-cons s (count_chunk s c) (count_chunks (count_chunk s c) cs) c cs first
      (count_chunks-IsCount (count_chunk s c) cs (omega (arith, fits, first.sized)))

-- The statistics of an array that is not empty: the sizes' sum, the replicas' sum and their
-- number, and the least and the greatest number of replicas, which some chunks have and no
-- chunk passes. The sum of the sizes is below 2 ^ 64.
pub get_chunk_statistics_lem :
    (c : Chunk) (cs : List Chunk) (t : Statistics)
    → sum_sizes (c ∷ cs) < 2 ^ 64
    → get_chunk_statistics (c ∷ cs) ≡ some t
    → (t.total_size ≡ sum_sizes (c ∷ cs))
      × (t.replica_sum ≡ sum_replicas (c ∷ cs))
      × (t.chunk_count ≡ length (c ∷ cs))
      × Has t.min_replicas (c ∷ cs)
      × Has t.max_replicas (c ∷ cs)
      × AreWithin t.min_replicas t.max_replicas (c ∷ cs)
unfolding get_chunk_statistics
get_chunk_statistics_lem c cs t fits done =
    let start : Statistics = record {
      total_size = 0;
      replica_sum = 0;
      chunk_count = suc (length cs);
      min_replicas = location_count c;
      max_replicas = location_count c;
    } in
    let run = count_chunks-IsCount start (c ∷ cs) (omega (arith, fits)) in
    let same : count_chunks start (c ∷ cs) ≡ t = cc in
    subst
      (λ u.
        (u.total_size ≡ sum_sizes (c ∷ cs))
        × (u.replica_sum ≡ sum_replicas (c ∷ cs))
        × (u.chunk_count ≡ length (c ∷ cs))
        × Has u.min_replicas (c ∷ cs)
        × Has u.max_replicas (c ∷ cs)
        × AreWithin u.min_replicas u.max_replicas (c ∷ cs))
      same
      (
        omega (arith, run.sized),
        omega (arith, run.summed),
        run.counted,
        elim (run.least) [ inl e ↦ inl (sym e) | inr h ↦ h ],
        elim (run.greatest) [ inl e ↦ inl (sym e) | inr h ↦ h ],
        run.within,
      )
