-- ===== src/Repair/SystemLaws.antt =====
-- What `netchunk_repair_system_health` of src/repair.c counts.
use net_chunk.Base.{
  ℕ, ◌+◌, ◌^◌, ◌<◌, ◌≤◌, true, List, [], ◌∷◌, ◌≡◌, refl, arith, inl, inr, Bool-cases, length,
  failed, u32, Result, ok, err, Option-cases,
}
use net_chunk.Config.Types.{Config}
use net_chunk.Manifest.Types.{FileManifest, chunks_of}
use net_chunk.Ftp.Remote.{Remote}
use net_chunk.Repair.Types.{RepairContext, ready}
use net_chunk.Repair.System.{
  Flags, no_flags, SystemHealth, count_file, flag_chunks, count_files, system_health,
}

-- The files that are counted.
abbrev pub counted_files : SystemHealth → ℕ
counted_files h = h.healthy_files + h.degraded_files + h.critical_files + h.lost_files

count_file_lem :
    (f : Flags) (h : SystemHealth)
    → counted_files h + 1 < 2 ^ 32
    → (counted_files (count_file f h) ≡ counted_files h + 1)
      × ((count_file f h).total_files ≡ h.total_files)
unfolding count_file
count_file_lem f h few = ground arith

module _ {W : Type 0} (r : Remote W) where
  -- Some files are passed over, and the others counted once.
  abbrev CountsUpTo : ℕ → SystemHealth → SystemHealth → Type 0
  CountsUpTo n h h' =
      (h'.total_files ≡ h.total_files)
      × (counted_files h ≤ counted_files h')
      × (counted_files h' ≤ counted_files h + n)

  count_files_lem :
      (unset : FileManifest) (context : RepairContext) (config : Config) (fs : List FileManifest)
      (h : SystemHealth) (w : W)
      → counted_files h + length fs < 2 ^ 32
      → CountsUpTo (length fs) h (count_files r unset context config fs h w).0
  unfolding count_files
  count_files_lem unset context config [] h w few = (refl, omega arith, omega arith)
  count_files_lem unset context config (f ∷ fs) h w few =
      let (code, (m, w1)) = r.download_manifest config f.original_filename unset w in
      let (flags, w2) = flag_chunks r context (chunks_of m) no_flags w1 in
      let one = count_file_lem flags h (omega (arith, few)) in
      elim (Bool-cases (failed code)) [
        | inl e ↦
            let rest = count_files_lem unset context config fs h w1 (omega (arith, few)) in
            rw (count_files, e) (rest.0, rest.1, omega (arith, rest.2))
        | inr e ↦
            let rest =
              count_files_lem unset context config fs (count_file flags h) w2
                (omega (arith, few, one.0)) in
            rw (count_files, e)
              (
                omega (arith, rest.0, one.1),
                omega (arith, rest.1, one.0),
                omega (arith, rest.2, one.0),
              )
      ]

  -- The answer counts no file twice.
  abbrev pub IsCount : Result SystemHealth → Type 0
  IsCount (err e) = failed e ≡ true
  IsCount (ok h) = counted_files h ≤ h.total_files

  -- With fewer than 2 ^ 32 files each is counted at most once, and their number is told.
  pub system_health-IsCount :
      (unset : FileManifest) (context : RepairContext) (w : W)
      → ((config : Config) → length (r.list_manifests config w).1.0 < 2 ^ 32)
      → IsCount (system_health r unset context w).0
  unfolding system_health
  system_health-IsCount unset context w few = elim (Option-cases (ready context)) [
    | inl e ↦ rw (system_health, e) refl
    | inr (config, e) ↦
        let (code, (files, w1)) = r.list_manifests config w in
        let start : SystemHealth = record {
          total_files = u32 (length files);
          healthy_files = 0;
          degraded_files = 0;
          critical_files = 0;
          lost_files = 0;
        } in
        let counts =
          count_files_lem unset context config files start w1 (omega (arith, few config)) in
        elim (Bool-cases (failed code)) [
          | inl f ↦ rw (system_health, e, f) f
          | inr f ↦ rw (system_health, e, f) (omega (arith, counts.0, counts.2, few config))
        ]
  ]
