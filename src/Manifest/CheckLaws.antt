-- ===== src/Manifest/CheckLaws.antt =====
-- What the checks of a manifest in src/manifest.c find.
use net_chunk.Base.{
  ℕ, zero, suc, ◌+◌, ◌≤◌, ◌<◌, Bool, true, List, [], ◌∷◌, ◌≡◌, ◌↔◌, ◌⊎◌, refl, ap, arith, ◌==◌,
  length, nil_of_length, length-take, inl, inr, Bool-cases, success, ok,
}
use net_chunk.Base.Int.{ℤ, pos, ltb_ℤ, ◌+ℤ◌, ◌≤ℤ◌}
use net_chunk.Chunker.Types.{Chunk, location_count, max_chunk_locations}
use net_chunk.Chunker.Count.{calculate_chunk_count}
use net_chunk.Config.Types.{min_chunk_size, max_chunk_size}
use net_chunk.Manifest.Types.{FileManifest, chunks_of, array_of}
use net_chunk.Manifest.Check.{
  are_chunks_valid, manifest_validate, ManifestStats, count_stored, count_all, manifest_statistics,
  count_under, indices_under, find_under_replicated,
}

-- The chunk at an index of the array: it has an identifier, this number, and at most ten locations.
abbrev pub IsChunkValid : ℕ → Chunk → Type 0
IsChunkValid i c =
    (0 < length c.id) × (c.sequence_number ≡ i) × (location_count c ≤ max_chunk_locations)

abbrev pub AreChunksValid : ℕ → List Chunk → Type 0
AreChunksValid i [] = Unit
AreChunksValid i (c ∷ cs) = IsChunkValid i c × AreChunksValid (suc i) cs

are_chunks_valid_iff :
    (i : ℕ) (cs : List Chunk) → (are_chunks_valid i cs ≡ true) ↔ AreChunksValid i cs
unfolding are_chunks_valid
are_chunks_valid_iff i [] = (λ e. tt, λ h. refl)
are_chunks_valid_iff i (c ∷ cs) =
    let later = are_chunks_valid_iff (suc i) cs in
    (λ e. (ground (arith, e), later.0 (ground (arith, e))), λ h. ground (arith, h.0, later.1 h.1))

-- What a valid manifest is, said without the order of the checks.
pub record IsManifestValid (m : FileManifest) : Type 0 where
  pub versioned : 0 < length m.version
  pub named : 0 < length m.original_filename
  pub identified : 0 < length m.manifest_id
  pub sized : 0 < m.total_size
  pub chunk_size_bounds : (min_chunk_size ≤ m.chunk_size) × (m.chunk_size ≤ max_chunk_size)
  pub counted :
      (0 < m.chunk_count) × (m.chunk_count ≡ calculate_chunk_count m.total_size m.chunk_size)
  pub chunks_valid : AreChunksValid 0 (chunks_of m)

-- The validation returns SUCCESS exactly for a valid manifest: its texts and sizes are not empty,
-- its chunk size is in range, its count of chunks is the one that its sizes call for, and each chunk
-- has an identifier, its index as its number, and at most ten locations.
pub manifest_validate_iff : (m : FileManifest) → (manifest_validate m ≡ success) ↔ IsManifestValid m
unfolding manifest_validate
manifest_validate_iff m =
    let chunks = are_chunks_valid_iff 0 (chunks_of m) in
    (
      λ e. record {
        versioned = ground (arith, e);
        named = ground (arith, e);
        identified = ground (arith, e);
        sized = ground (arith, e);
        chunk_size_bounds = ground (arith, e);
        counted = ground (arith, e);
        chunks_valid = chunks.0 (ground (arith, e));
      },
      λ h. ground (
        arith,
        h.versioned,
        h.named,
        h.identified,
        h.sized,
        h.chunk_size_bounds,
        h.counted,
        chunks.1 h.chunks_valid,
      ),
    )

length-indices :
    (k : ℤ) (i : ℕ) (cs : List Chunk) → length (indices_under k i cs) ≡ count_under k cs
unfolding count_under indices_under
length-indices k i [] = refl
length-indices k i (c ∷ cs) = ground (arith, length-indices k (suc i) cs)

-- The index is in the list.
abbrev pub IsAmong : ℕ → List ℕ → Type 0
IsAmong j [] = ⊥
IsAmong j (i ∷ is) = (j ≡ i) ⊎ IsAmong j is

-- There is a chunk at the index, and it has fewer locations than asked.
abbrev pub IsUnderAt : ℤ → List Chunk → ℕ → Type 0
IsUnderAt k [] j = ⊥
IsUnderAt k (c ∷ cs) zero = (pos (location_count c) +ℤ pos 1) ≤ℤ k
IsUnderAt k (c ∷ cs) (suc j) = IsUnderAt k cs j

-- The test of both loops.
abbrev is_under : ℤ → Chunk → Bool
is_under k c = ltb_ℤ (pos (location_count c)) k

is_under_iff :
    (k : ℤ) (c : Chunk) → (is_under k c ≡ true) ↔ ((pos (location_count c) +ℤ pos 1) ≤ℤ k)
unfolding ◌+ℤ◌
is_under_iff k c = ground arith

indices_from : (k : ℤ) (i : ℕ) (cs : List Chunk) (j : ℕ) → IsAmong j (indices_under k i cs) → i ≤ j
unfolding indices_under
indices_from k i [] j h = absurd h
indices_from k i (c ∷ cs) j h = elim (Bool-cases (is_under k c)) [
  | inl e ↦ elim (rw e at h) [
    | inl same ↦ omega arith
    | inr later ↦ omega (arith, indices_from k (suc i) cs j later)
  ]
  | inr e ↦ omega (arith, indices_from k (suc i) cs j (rw e at h))
]

indices_iff :
    (k : ℤ) (i : ℕ) (cs : List Chunk) (j d : ℕ)
    → j ≡ i + d
    → IsAmong j (indices_under k i cs) ↔ IsUnderAt k cs d
unfolding indices_under
indices_iff k i [] j d q = (λ h. absurd h, λ h. absurd h)
indices_iff k i (c ∷ cs) j zero q = elim (Bool-cases (is_under k c)) [
  | inl e ↦ rw e (λ h. (is_under_iff k c).0 e, λ h. inl (omega arith))
  | inr e ↦ rw e (
    λ h. absurd (omega (arith, indices_from k (suc i) cs j h)),
    λ h. absurd (cc (e, (is_under_iff k c).1 h)),
  )
]
indices_iff k i (c ∷ cs) j (suc d) q =
    let rest = indices_iff k (suc i) cs j d (omega arith) in
    elim (Bool-cases (is_under k c)) [
      | inl e ↦ rw e (
        λ h. (elim h [ inl same ↦ absurd (omega arith) | inr later ↦ rest.0 later ]),
        λ h. inr (rest.1 h),
      )
      | inr e ↦ rw e rest
    ]

-- When the search for under-replicated chunks succeeds, its indices are exactly those of the chunks
-- with fewer locations than asked, and the count is their number; a number of replicas below 1 is
-- refused.
pub find_under_replicated_lem :
    (m : FileManifest) (min_replicas : ℤ) (allocated : Bool) (indices : List ℕ) (count : ℕ)
    → find_under_replicated m min_replicas allocated ≡ ok (indices, count)
    → (length indices ≡ count)
      × ((j : ℕ) → IsAmong j indices ↔ IsUnderAt min_replicas (chunks_of m) j)
      × (pos 1 ≤ℤ min_replicas)
unfolding find_under_replicated
find_under_replicated_lem m k allocated indices count e =
    let counted = length-indices k 0 (chunks_of m) in
    let total : count ≡ count_under k (chunks_of m) = ground (arith, e) in
    let all : indices ≡ indices_under k 0 (chunks_of m) =
      elim (Bool-cases (count_under k (chunks_of m) == 0)) [
        | inl none_under ↦
            let empty : indices_under k 0 (chunks_of m) ≡ [] =
              nil_of_length (indices_under k 0 (chunks_of m))
                (ground (arith, counted, none_under)) in
            ground (arith, e, none_under, empty)
        | inr some_under ↦ ground (arith, e, some_under)
      ] in
    (
      omega (arith, ap length all, counted, total),
      λ j. rw all (indices_iff k 0 (chunks_of m) j j (omega arith)),
      ground (arith, e),
    )

-- What has been counted: the chunks, and a replica at least of each one stored.
abbrev IsCounted : ℕ → ManifestStats → Type 0
IsCounted n s = (s.stored + s.missing ≡ n) × (s.stored ≤ s.replica_sum)

count_all-IsCounted :
    (cs : List Chunk) (s : ManifestStats) (n : ℕ)
    → IsCounted n s
    → IsCounted (n + length cs) (count_all s cs)
unfolding count_all count_stored
count_all-IsCounted [] s n h = (omega (arith, h), h.1)
count_all-IsCounted (c ∷ cs) s n h =
    let next : IsCounted (suc n) (count_stored s c) = ground (arith, h) in
    let rest = count_all-IsCounted cs (count_stored s c) (suc n) next in
    (omega (arith, rest), rest.1)

-- The statistics of a manifest whose array has as many chunks as its count: the chunks stored and
-- those missing are together all chunks, and each stored one has a replica.
pub manifest_statistics_lem :
    (m : FileManifest)
    → m.chunk_count ≤ length (array_of m.chunks)
    → ((manifest_statistics m).stored + (manifest_statistics m).missing ≡ m.chunk_count)
      × ((manifest_statistics m).stored ≤ (manifest_statistics m).replica_sum)
unfolding manifest_statistics
manifest_statistics_lem m full =
    let start : ManifestStats = record {
      stored = 0;
      size_sum = 0;
      replica_sum = 0;
      least = 2147483647;
      missing = 0;
    } in
    let all = count_all-IsCounted (chunks_of m) start 0 (refl, omega arith) in
    ground (arith, all, full, length-take m.chunk_count (array_of m.chunks))
