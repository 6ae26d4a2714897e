-- ===== src/Api/DownloadLaws.antt =====
-- What `netchunk_download` of src/netchunk.c writes.
use mathlib.Core.Path.{subst}
use net_chunk.Base.{
  ℕ, zero, suc, ◌≤◌, Bool, true, false, Option, none, some, List, [], ◌∷◌, ◌++◌, ◌≡◌, refl, sym, ap,
  ◌∙◌, arith, All, take, min, append_assoc, append-nil, inl, inr, Bool-cases, Option-cases, ◌==◌,
  success, failed, failed_cases, ok,
}
use net_chunk.Base.Int.{pos_part}
use net_chunk.Chunker.Types.{Location, Chunk}
use net_chunk.Chunker.Chunk.{verify_integrity}
use net_chunk.Config.Types.{Server, Config}
use net_chunk.Libc.Files.{Closing, Flushes}
use net_chunk.Manifest.Types.{FileManifest, chunks_of}
use net_chunk.Ftp.Remote.{Remote, Pointer, kept, replaced, with_pointer}
use net_chunk.Repair.Types.{find_server_by_id}
use net_chunk.Api.Types.{Context, Stats, ready}
use net_chunk.Api.Download.{
  Transfer, data_of, or_else, when_done, write_chunk, attempt, attempts, try_locations,
  fetch_chunks, start_transfer, download,
}

-- The chunk, with other data.
abbrev pub with_data : Chunk → List ℕ → Chunk
with_data c bytes = record c { bytes = some bytes }

-- The file is, chunk by chunk, data that verify, each cut to the chunk's size.
abbrev pub IsFileOf : List Chunk → List ℕ → Type 0
IsFileOf [] file = file ≡ []
IsFileOf (c ∷ cs) file =
    (bytes : List ℕ) × (rest : List ℕ) × (verify_integrity (with_data c bytes) ≡ success)
    × (file ≡ take c.size bytes ++ rest)
    × IsFileOf cs rest

-- What an attempt leaves of the chunk: at most its data change.
abbrev pub SameBut : Chunk → Chunk → Type 0
SameBut c c' = c' ≡ record c { bytes = c'.bytes }

pub SameBut-trans : (a b c : Chunk) → SameBut a b → SameBut b c → SameBut a c
SameBut-trans a b c p q = q ∙ ap (λ (x : Chunk). record x { bytes = c.bytes }) p

pub with_pointer-SameBut : (c : Chunk) (p : Pointer) → SameBut c (with_pointer c p)
with_pointer-SameBut c kept = refl
with_pointer-SameBut c (replaced b) = refl

verified_with :
    (c : Chunk) (b : Option (List ℕ))
    → verify_integrity (record c { bytes = b }) ≡ success
    → verify_integrity (with_data c (data_of (record c { bytes = b }))) ≡ success
unfolding verify_integrity
verified_with c none e = cc
verified_with c (some bytes) e = e

verified_some :
    (c : Chunk)
    → verify_integrity c ≡ success
    → verify_integrity (with_data c (data_of c)) ≡ success
verified_some c e = verified_with c c.bytes e

module _ {W : Type 0} where
  -- What an attempt at a chunk leaves of a file: as it was, or data that verify behind it.
  abbrev pub IsOutcome : Chunk → List ℕ → Bool × (Chunk × Transfer W) → Type 0
  IsOutcome c file (false, (c', s')) = SameBut c c' × (s'.file ≡ file)
  IsOutcome c file (true, (c', s')) =
      (bytes : List ℕ) × (verify_integrity (with_data c bytes) ≡ success)
      × (s'.file ≡ file ++ take c.size bytes)

  IsOutcome-later :
      (c c1 : Chunk) (file file1 : List ℕ) (x : Bool × (Chunk × Transfer W))
      → SameBut c c1
      → file1 ≡ file
      → IsOutcome c1 file1 x
      → IsOutcome c file x
  IsOutcome-later c c1 file file1 (false, (c', s')) same e h =
      (SameBut-trans c c1 c' same h.0, h.1 ∙ e)
  IsOutcome-later c c1 file file1 (true, (c', s')) same e (bytes, verified, written) = (
    bytes,
    ap (λ (x : Chunk). verify_integrity (with_data x bytes)) (sym same) ∙ verified,
    written
        ∙ ap (λ f. f ++ take c1.size bytes) e
        ∙ ap (λ (x : Chunk). file ++ take x.size bytes) same,
  )

  or_else-IsOutcome :
      (c : Chunk) (file : List ℕ) (x : Bool × (Chunk × Transfer W))
      (next : Chunk → Transfer W → Bool × (Chunk × Transfer W))
      → IsOutcome c file x
      → ((c' : Chunk) (s' : Transfer W) → SameBut c c' → IsOutcome c' s'.file (next c' s'))
      → IsOutcome c file (or_else x next)
  or_else-IsOutcome c file (true, (c', s')) next h k = h
  or_else-IsOutcome c file (false, (c', s')) next h k =
      IsOutcome-later c c' file s'.file (next c' s') h.0 h.1 (k c' s' h.0)

  module _ (r : Remote W) (accepted : ℕ → ℕ) where
    write_chunk-IsOutcome :
        (c : Chunk) (s : Transfer W)
        → ((i : ℕ) → c.size ≤ accepted i)
        → verify_integrity c ≡ success
        → IsOutcome c s.file (write_chunk r accepted c s)
    unfolding write_chunk
    write_chunk-IsOutcome c s full e =
        let all_written : (min (accepted s.writes) c.size == c.size) ≡ true =
          ground (arith, full s.writes) in
        let n : min (accepted s.writes) c.size ≡ c.size = omega (arith, full s.writes) in
        rw (all_written) (data_of c, verified_some c e, ap (λ k. s.file ++ take k (data_of c)) n)

    attempt-IsOutcome :
        (server : Server) (c : Chunk) (s : Transfer W)
        → ((i : ℕ) → c.size ≤ accepted i)
        → IsOutcome c s.file (attempt r accepted server c s)
    unfolding attempt
    attempt-IsOutcome server c s full =
        let (code, (pointer, w)) = r.download_chunk server c s.world in
        let c' = with_pointer c pointer in
        let same = with_pointer-SameBut c pointer in
        elim (Bool-cases (failed code)) [
          | inl e ↦ rw (attempt, e) (same, refl)
          | inr e ↦ elim (failed_cases (verify_integrity c')) [
            | inr f ↦ rw (attempt, e, f) (same, refl)
            | inl f ↦
                rw (attempt, e, f)
                  (IsOutcome-later c c' s.file s.file
                    (write_chunk r accepted c' (record s { world = w })) same refl
                    (write_chunk-IsOutcome c' (record s { world = w })
                      (λ i. subst (λ (x : Chunk). x.size ≤ accepted i) (sym same) (full i)) f))
          ]
        ]

    abbrev pub Accepts : Chunk → Type 0
    Accepts c = (i : ℕ) → c.size ≤ accepted i

    Accepts-same : (c c' : Chunk) → SameBut c c' → Accepts c → Accepts c'
    Accepts-same c c' same full i = subst (λ (x : Chunk). x.size ≤ accepted i) (sym same) (full i)

    pub attempts-IsOutcome :
        (n : ℕ) (server : Server) (c : Chunk) (s : Transfer W)
        → Accepts c
        → IsOutcome c s.file (attempts r accepted n server c s)
    unfolding attempts
    attempts-IsOutcome zero server c s full = (refl, refl)
    attempts-IsOutcome (suc n) server c s full =
        or_else-IsOutcome c s.file (attempt r accepted server c s) (attempts r accepted n server)
          (attempt-IsOutcome server c s full)
          (λ c' s' same. attempts-IsOutcome n server c' s' (Accepts-same c c' same full))

    try_locations-IsOutcome :
        (config : Config) (ls : List Location) (c : Chunk) (s : Transfer W)
        → Accepts c
        → IsOutcome c s.file (try_locations r accepted config ls c s)
    unfolding try_locations
    try_locations-IsOutcome config [] c s full = (refl, refl)
    try_locations-IsOutcome config (l ∷ ls) c s full =
        elim (Option-cases (find_server_by_id config l.server_id)) [
          | inl e ↦ rw (try_locations, e) (try_locations-IsOutcome config ls c s full)
          | inr (server, e) ↦
              rw (try_locations, e)
                (or_else-IsOutcome c s.file
                  (attempts r accepted (pos_part config.max_retry_attempts) server c s)
                  (try_locations r accepted config ls)
                  (attempts-IsOutcome (pos_part config.max_retry_attempts) server c s full)
                  (λ c' s' same.
                    try_locations-IsOutcome config ls c' s' (Accepts-same c c' same full)))
        ]

    fetched :
        (c : Chunk) (cs : List Chunk) (file : List ℕ) (x : Bool × (Chunk × Transfer W))
        (next : Transfer W → Bool × Transfer W)
        → IsOutcome c file x
        → ((s : Transfer W)
            → (next s).0 ≡ true
            → (rest : List ℕ) × ((next s).1.file ≡ s.file ++ rest) × IsFileOf cs rest)
        → (when_done x next).0 ≡ true
        → (rest : List ℕ) × ((when_done x next).1.file ≡ file ++ rest) × IsFileOf (c ∷ cs) rest
    fetched c cs file (false, (c', s')) next h k done = cc
    fetched c cs file (true, (c', s')) next (bytes, verified, written) k done =
        let (rest, more, all) = k s' done in
        (
          take c.size bytes ++ rest,
          more ∙ ap (λ f. f ++ rest) written ∙ append_assoc file (take c.size bytes) rest,
          (bytes, rest, verified, refl, all),
        )

    pub fetch_chunks-IsFileOf :
        (config : Config) (cs : List Chunk) (s : Transfer W)
        → All Accepts cs
        → (fetch_chunks r accepted config cs s).0 ≡ true
        → (rest : List ℕ) × ((fetch_chunks r accepted config cs s).1.file ≡ s.file ++ rest)
          × IsFileOf cs rest
    unfolding fetch_chunks
    fetch_chunks-IsFileOf config [] s full e = ([], sym (append-nil s.file), refl)
    fetch_chunks-IsFileOf config (c ∷ cs) s full e =
        fetched c cs s.file (try_locations r accepted config c.locations c s)
          (fetch_chunks r accepted config cs)
          (try_locations-IsOutcome config c.locations c s full.0)
          (λ s' done. fetch_chunks-IsFileOf config cs s' full.1 done) e

    -- When a download succeeds, the file at the path is, chunk by chunk in the manifest's order, data
    -- that verify against the hash of the chunk, each cut to the chunk's size, and the chunks are
    -- those of the manifest that was downloaded. No write takes fewer bytes than it is given, and
    -- `fclose` writes them out.
    pub download_success :
        (unset : FileManifest) (opened : Bool) (closing : Closing) (before after : Option (List ℕ))
        (context : Context) (config : Config) (remote_name : List ℕ) (w w1 last : W)
        (m : FileManifest) (stats : Stats)
        → ready context ≡ some config
        → r.download_manifest config remote_name unset w ≡ (success, (m, w1))
        → All Accepts (chunks_of m)
        → Flushes closing
        → download r accepted unset opened closing before context remote_name w
          ≡ (ok stats, (after, last))
        → (file : List ℕ) × (after ≡ some file)
          × IsFileOf (chunks_of m) file
          × (stats.chunks_processed ≡ m.chunk_count)
    unfolding download
    download_success unset opened closing before after context config remote_name w w1 last m stats
          set got full flushes e =
        let x = fetch_chunks r accepted config (chunks_of m) (start_transfer r accepted w1) in
        let all_done : x.0 ≡ true = ground (arith, set, got, e) in
        let whole : after ≡ some (closing.written_out x.1.file) = ground (arith, set, got, e) in
        let count : stats.chunks_processed ≡ m.chunk_count = ground (arith, set, got, e) in
        let (rest, is_rest, all) =
          fetch_chunks-IsFileOf config (chunks_of m) (start_transfer r accepted w1) full all_done in
        (rest, whole ∙ ap some (flushes x.1.file ∙ is_rest), all, count)
