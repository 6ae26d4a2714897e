-- ===== src/Manifest/Files.antt =====
-- The files of manifests in src/manifest.c: `netchunk_manifest_build_path`, `_file_exists`,
-- `_backup`, `_delete_file`, `_load_from_file`, `_save_to_file`, `write_file_atomically` and
-- `read_file_content`. The conversion to and from JSON is an argument. An operation that writes
-- gives, beside its code, every state of the file system that it passes through, in order.
use net_chunk.Base.{
  ℕ, ◌-◌, Bool, false, not, ◌&&◌, none, some, List, [], ◌∷◌, ◌++◌, leb, ◌==◌, if◌then◌else◌, length,
  take, ErrorCode, success, invalid_argument, out_of_memory, file_not_found, file_access, Result,
  ok, err, is_some,
}
use net_chunk.Libc.Text.{codes, same_text}
use net_chunk.Libc.Decimal.{decimal}
pub use net_chunk.Libc.Files.{Files, put}
use net_chunk.Manifest.Types.{FileManifest, manifest_extension, temp_suffix, max_manifest_path_len}

-- `netchunk_manifest_manager_t`, without the configuration.
pub record Manager : Type 0 where
  pub manifest_directory : List ℕ
  pub auto_backup : Bool
  pub max_backups : ℕ

-- What the calls of one write answer: `fopen`, `fprintf` with the bytes that reached the file by
-- then, `fflush`, `rename`.
pub record Writing : Type 0 where
  pub opened : Bool
  pub printed : Bool
  pub partial : ℕ
  pub flushed : Bool
  pub renamed : Bool

-- The states after the start, in order, and the last one.
pub record Trace : Type 0 where
  pub passed : List Files
  pub last : Files

-- No state but the one that stays.
abbrev pub still : Files → Trace
still fs = record { passed = []; last = fs }

abbrev pub then_trace : Trace → Trace → Trace
then_trace a b = record { passed = a.passed ++ (a.last ∷ b.passed); last = b.last }

unfoldable pub temp_path : List ℕ → List ℕ
temp_path path = take (max_manifest_path_len - 1) (path ++ temp_suffix)

-- `rename` moves what stands at the first path to the second.
abbrev pub move : Files → List ℕ → List ℕ → Files
move fs from to = if same_text from to then fs else put (put fs to (fs from)) from none

unfoldable pub write_file_atomically : Writing → List ℕ → List ℕ → Files → ErrorCode × Trace
write_file_atomically w path content fs =
    let temp = temp_path path in
    let created = put fs temp (some []) in
    let partly = put created temp (some (take w.partial content)) in
    let whole = put partly temp (some content) in
    if not w.opened
    then (file_access, still fs)
    else if not w.printed
    then (file_access, record { passed = fs ∷ created ∷ partly ∷ []; last = put partly temp none })
    else if not w.flushed
    then (file_access, record { passed = fs ∷ created ∷ partly ∷ []; last = put partly temp none })
    else if not w.renamed
    then (
      file_access,
      record { passed = fs ∷ created ∷ partly ∷ whole ∷ []; last = put whole temp none },
    )
    else (
      success,
      record { passed = fs ∷ created ∷ partly ∷ whole ∷ []; last = move whole temp path },
    )

-- `read_all` says whether `fread` gives the whole file, `allocated` whether `malloc` succeeds.
unfoldable pub read_file_content : Bool → Bool → List ℕ → Files → Result (List ℕ)
read_file_content allocated read_all path fs = elim (fs path) [
  | none ↦ err file_not_found
  | some content ↦
      if not allocated
      then err out_of_memory
      else if not read_all
      then err file_access
      else ok content
]

unfoldable pub build_path : Manager → List ℕ → ℕ → Result (List ℕ)
build_path manager filename path_len =
    let path = manager.manifest_directory ++ (codes "/" ++ (filename ++ manifest_extension)) in
    if path_len == 0
    then err invalid_argument
    else if leb path_len (length path)
    then err invalid_argument
    else ok path

unfoldable pub file_exists : Manager → List ℕ → Files → Bool
file_exists manager filename fs = elim (build_path manager filename max_manifest_path_len) [
  | err e ↦ false
  | ok path ↦ is_some (fs path)
]

unfoldable pub backup_path : List ℕ → ℕ → List ℕ
backup_path path now = take (max_manifest_path_len - 1) (path ++ (codes ".backup." ++ decimal now))

-- The code is not looked at by the callers.
unfoldable pub backup : Writing → Bool → Bool → ℕ → Manager → List ℕ → Files → ErrorCode × Trace
backup w allocated read_all now manager filename fs =
    elim (build_path manager filename max_manifest_path_len) [
      | err e ↦ (e, still fs)
      | ok path ↦
          if not (is_some (fs path))
          then (file_not_found, still fs)
          else (elim (read_file_content allocated read_all path fs) [
            | err e ↦ (e, still fs)
            | ok content ↦ write_file_atomically w (backup_path path now) content fs
          ])
    ]

-- `unlinked` is the answer of `unlink` for a file that is there.
unfoldable pub delete_file :
    Writing → Bool → Bool → ℕ → Bool → Manager → List ℕ → Files → ErrorCode × Trace
delete_file w allocated read_all now unlinked manager filename fs =
    elim (build_path manager filename max_manifest_path_len) [
      | err e ↦ (e, still fs)
      | ok path ↦
          let saved =
            if manager.auto_backup
            then (backup w allocated read_all now manager filename fs).1
            else still fs in
          if not (is_some (saved.last path))
          then (file_not_found, saved)
          else if not unlinked
          then (file_access, saved)
          else (success, then_trace saved (still (put saved.last path none)))
    ]

-- `to_json` and `from_json` stand for the conversions, which use cJSON.
unfoldable pub save_to_file :
    (FileManifest → Result (List ℕ))
    → Writing
    → Writing
    → Bool
    → Bool
    → ℕ
    → Manager
    → FileManifest
    → List ℕ
    → Files
    → ErrorCode × Trace
save_to_file to_json w w' allocated read_all now manager m filename fs =
    elim (build_path manager filename max_manifest_path_len) [
      | err e ↦ (e, still fs)
      | ok path ↦
          let saved =
            if manager.auto_backup && is_some (fs path)
            then (backup w allocated read_all now manager filename fs).1
            else still fs in
          (elim (to_json m) [
            | err e ↦ (e, saved)
            | ok text ↦
                let (code, written) = write_file_atomically w' path text saved.last in
                (code, then_trace saved written)
          ])
    ]

unfoldable pub load_from_file :
    (List ℕ → Result FileManifest) → Bool → Bool → Manager → List ℕ → Files → Result FileManifest
load_from_file from_json allocated read_all manager filename fs =
    elim (build_path manager filename max_manifest_path_len) [
      | err e ↦ err e
      | ok path ↦ (elim (read_file_content allocated read_all path fs) [
        | err e ↦ err e
        | ok text ↦ from_json text
      ])
    ]
