-- ===== src/Repair/System.antt =====
-- `netchunk_repair_system_health` of src/repair.c, over any FTP client.
use net_chunk.Base.{
  ℕ, ◌+◌, Bool, true, false, none, some, List, [], ◌∷◌, if◌then◌else◌, length, u32,
  invalid_argument, failed, Result, ok, err,
}
use net_chunk.Chunker.Types.{Chunk}
use net_chunk.Manifest.Types.{FileManifest, chunks_of}
use net_chunk.Config.Types.{Config}
use net_chunk.Ftp.Remote.{Remote}
use net_chunk.Repair.Types.{RepairContext, ChunkHealth, healthy, degraded, critical, lost, ready}
use net_chunk.Repair.Health.{check_chunk_health}

-- `file_has_lost_chunks`, `file_has_critical_chunks` and `file_has_degraded_chunks`
pub record Flags : Type 0 where
  pub has_lost : Bool
  pub has_critical : Bool
  pub has_degraded : Bool

abbrev pub no_flags : Flags
no_flags = record { has_lost = false; has_critical = false; has_degraded = false }

-- The `switch` over the health of a chunk.
abbrev pub flag : Result (ChunkHealth × ℕ) → Flags → Flags
flag (err e) f = f
flag (ok (healthy, n)) f = f
flag (ok (degraded, n)) f = record f { has_degraded = true }
flag (ok (critical, n)) f = record f { has_critical = true }
flag (ok (lost, n)) f = record f { has_lost = true }

-- The numbers of files.
pub record SystemHealth : Type 0 where
  pub total_files : ℕ
  pub healthy_files : ℕ
  pub degraded_files : ℕ
  pub critical_files : ℕ
  pub lost_files : ℕ

-- A file counts by its worst chunk.
unfoldable pub count_file : Flags → SystemHealth → SystemHealth
count_file f h =
    if f.has_lost
    then record h { lost_files = u32 (h.lost_files + 1) }
    else if f.has_critical
    then record h { critical_files = u32 (h.critical_files + 1) }
    else if f.has_degraded
    then record h { degraded_files = u32 (h.degraded_files + 1) }
    else record h { healthy_files = u32 (h.healthy_files + 1) }

module _ {W : Type 0} (r : Remote W) where
  -- The loop over the chunks of a file.
  unfoldable pub flag_chunks : RepairContext → List Chunk → Flags → W → Flags × W
  flag_chunks context [] f w = (f, w)
  flag_chunks context (c ∷ cs) f w =
      let (checked, w1) = check_chunk_health r context c w in
      flag_chunks context cs (flag checked f) w1

  -- The loop over the files; `unset` is what the variable of the manifest holds.
  unfoldable pub count_files :
      FileManifest
      → RepairContext
      → Config
      → List FileManifest
      → SystemHealth
      → W
      → SystemHealth × W
  count_files unset context config [] h w = (h, w)
  count_files unset context config (f ∷ fs) h w =
      let (code, (m, w1)) = r.download_manifest config f.original_filename unset w in
      let (flags, w2) = flag_chunks context (chunks_of m) no_flags w1 in
      let skipped = count_files unset context config fs h w1 in
      let counted = count_files unset context config fs (count_file flags h) w2 in
      if failed code then skipped else counted

  unfoldable pub system_health : FileManifest → RepairContext → W → Result SystemHealth × W
  system_health unset context w = elim (ready context) [
    | none ↦ (err invalid_argument, w)
    | some config ↦
        let (code, (files, w1)) = r.list_manifests config w in
        if failed code
        then (err code, w1)
        else (let (h, w2) =
              count_files unset context config files
                (record {
                  total_files = u32 (length files);
                  healthy_files = 0;
                  degraded_files = 0;
                  critical_files = 0;
                  lost_files = 0;
                })
                w1 in
            (ok h, w2))
  ]
