-- ===== src/Manifest/SaveLoad.antt =====
-- A manifest that src/manifest.c saves to a file and loads again.
use net_chunk.Base.{
  ℕ, ◌+◌, ◌<◌, Bool, true, some, List, ◌++◌, ◌≡◌, ◌⊎◌, refl, ◌∙◌, arith, inl, inr, leb, ◌==◌, ◌&&◌,
  is_some, if◌then◌else◌, Bool-cases, length, length-append, success, invalid_argument, Result, ok,
  err,
}
use net_chunk.Libc.Text.{codes}
use net_chunk.Manifest.Types.{FileManifest, manifest_extension}
use net_chunk.Manifest.Cjson.{Cjson, CjsonLaws}
use net_chunk.Manifest.Json.{Grants, to_json, from_json}
use net_chunk.Manifest.ChunkJson.{AllGranted}
use net_chunk.Manifest.Files.{
  Files, Manager, Writing, Trace, still, write_file_atomically, read_file_content, build_path,
  backup, save_to_file, load_from_file,
}
use net_chunk.Manifest.FileLaws.{write_file_atomically_lem}
use net_chunk.Manifest.RoundTrip.{IsStorable, reloaded, to_json-cases, from_json-to_json}

build_path-cases :
    (manager : Manager) (filename : List ℕ) (n : ℕ)
    → (build_path manager filename n ≡ err invalid_argument)
      ⊎ ((path : List ℕ) × (build_path manager filename n ≡ ok path)
          × (length path ≡ length manager.manifest_directory + length filename + 10))
unfolding build_path
build_path-cases manager filename n =
    let path = manager.manifest_directory ++ (codes "/" ++ (filename ++ manifest_extension)) in
    elim (Bool-cases (n == 0)) [
      | inl e ↦ rw (build_path, e) (inl refl)
      | inr e ↦ elim (Bool-cases (leb n (length path))) [
        | inl long ↦ rw (build_path, e, long) (inl refl)
        | inr short ↦
            rw (build_path, e, short)
              (inr (
                path,
                refl,
                omega (
                  arith,
                  length-append manager.manifest_directory
                      (codes "/" ++ (filename ++ manifest_extension)),
                  length-append filename manifest_extension,
                ),
              ))
      ]
    ]

load_written :
    (from : List ℕ → Result FileManifest) (manager : Manager) (filename path text : List ℕ)
    (fs : Files)
    → build_path manager filename 1024 ≡ ok path
    → fs path ≡ some text
    → load_from_file from true true manager filename fs ≡ from text
unfolding load_from_file read_file_content
load_written from manager filename path text fs good there =
    rw (load_from_file, good, read_file_content, there) refl

module _ (c : Cjson) (laws : CjsonLaws c) where
  -- A storable manifest that was saved with SUCCESS is loaded, when the reads succeed, from the
  -- state in which the save leaves the files. The directory and the name are not too long.
  pub load_from_file-save_to_file :
      (granted : Grants) (w w' : Writing) (allocated read_all : Bool) (now : ℕ) (manager : Manager)
      (m : FileManifest) (filename : List ℕ) (fs : Files)
      → AllGranted granted.chunk
      → IsStorable m
      → length manager.manifest_directory + length filename < 1013
      → let (code, trace) =
          save_to_file (to_json c granted) w w' allocated read_all now manager m filename fs in
        (code ≡ success)
        → load_from_file (from_json c true) true true manager filename trace.last ≡ ok (reloaded m)
  unfolding save_to_file
  load_from_file-save_to_file granted w w' allocated read_all now manager m filename fs all s
        short =
      elim (build_path-cases manager filename 1024) [
        | inl bad ↦ rw (save_to_file, bad) (λ h. cc)
        | inr (path, good, size) ↦
            let saved : Trace =
              if manager.auto_backup && is_some (fs path)
              then (backup w allocated read_all now manager filename fs).1
              else still fs in
            elim (to_json-cases c laws granted m) [
              | inl bad ↦ rw (save_to_file, good, bad) (λ h. cc)
              | inr (text, made) ↦
                  let written =
                    write_file_atomically_lem w' path text saved.last
                      (omega (arith, size, short)) in
                  rw (save_to_file, good, made)
                    (λ h.
                      load_written (from_json c true) manager filename path text
                        (write_file_atomically w' path text saved.last).1.last good (written.1 h)
                      ∙ from_json-to_json c laws granted m text all s made)
            ]
      ]
