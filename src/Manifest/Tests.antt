-- ===== src/Manifest/Tests.antt =====
-- Manifests made and checked, and the theorems about them at concrete inputs.
use net_chunk.Base.{
  ℕ, ◌≡◌, ◌↔◌, refl, arith, List, [], ◌∷◌, true, false, none, some, ok, length, replicate, success,
  take,
}
use net_chunk.Base.{All, failed}
use net_chunk.Libc.Text.{codes, same_text}
use net_chunk.Manifest.Files.{Files, put, Writing, temp_path, write_file_atomically}
use net_chunk.Manifest.FileLaws.{IsOldOrNew, write_file_atomically_lem}
use net_chunk.Base.Int.{pos, ◌≤ℤ◌}
use net_chunk.Chunker.Types.{Location, Chunk}
use net_chunk.Manifest.Types.{FileManifest, zero_manifest, chunks_of}
use net_chunk.Manifest.Build.{add_chunk}
use net_chunk.Manifest.Check.{manifest_validate, count_under, indices_under, find_under_replicated}
use net_chunk.Manifest.CheckLaws.{
  IsManifestValid, manifest_validate_iff, IsAmong, IsUnderAt, find_under_replicated_lem,
}

abbrev location : Location
location = record {
  server_id = b'a' ∷ [];
  remote_path = [];
  upload_time = 0;
  verified = false;
  last_verified = 0;
}

abbrev chunk : ℕ → List Location → Chunk
chunk n ls = record {
  id = b'x' ∷ [];
  hash = replicate 32 0;
  size = 3;
  sequence_number = n;
  created_timestamp = 0;
  locations = ls;
  bytes = none;
  data_owned = false;
}

abbrev two_chunks : FileManifest
two_chunks = record zero_manifest {
  chunks = some (chunk 0 (location ∷ []) ∷ chunk 1 [] ∷ []);
  chunk_count = 2;
}

abbrev built : FileManifest
built =
    (add_chunk (add_chunk zero_manifest (chunk 0 (location ∷ [])) true true).1 (chunk 1 []) true
      true).1

builds : chunks_of built ≡ chunks_of two_chunks
unfolding add_chunk take
builds = refl

finds : find_under_replicated two_chunks (pos 1) true ≡ ok (1 ∷ [], 1)
unfolding find_under_replicated count_under indices_under take
finds = refl

find_under_replicated_lem_example :
    (length {A = ℕ} (1 ∷ []) ≡ 1)
    × ((j : ℕ) → IsAmong j (1 ∷ []) ↔ IsUnderAt (pos 1) (chunks_of two_chunks) j)
    × (pos 1 ≤ℤ pos 1)
find_under_replicated_lem_example =
    find_under_replicated_lem two_chunks (pos 1) true (1 ∷ []) 1 finds

manifest_validate_iff_example :
    (manifest_validate two_chunks ≡ success) ↔ IsManifestValid two_chunks
manifest_validate_iff_example = manifest_validate_iff two_chunks

abbrev manifest_path : List ℕ
manifest_path = codes "/m/f.netchunk"

abbrev old_files : Files
old_files = put (λ p. none) manifest_path (some (1 ∷ []))

-- A write that ends before the rename.
abbrev cut_short : Writing
cut_short = record { opened = true; printed = true; partial = 1; flushed = true; renamed = false }

cuts :
    (write_file_atomically cut_short manifest_path (2 ∷ 3 ∷ []) old_files).1.last manifest_path
    ≡ some (1 ∷ [])
unfolding write_file_atomically temp_path take same_text
cuts = refl

write_file_atomically_lem_example :
    let (code, trace) = write_file_atomically cut_short manifest_path (2 ∷ 3 ∷ []) old_files in
    All (IsOldOrNew manifest_path (old_files manifest_path) (2 ∷ 3 ∷ [])) trace.passed
    × ((code ≡ success) → trace.last manifest_path ≡ some (2 ∷ 3 ∷ []))
    × ((failed code ≡ true) → trace.last manifest_path ≡ old_files manifest_path)
write_file_atomically_lem_example =
    write_file_atomically_lem cut_short manifest_path (2 ∷ 3 ∷ []) old_files (omega arith)
