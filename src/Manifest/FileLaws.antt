-- ===== src/Manifest/FileLaws.antt =====
-- What a reader of a manifest's file can find while src/manifest.c writes it.
use net_chunk.Base.{
  ℕ, ◌<◌, true, false, Option, none, some, List, [], ◌++◌, ◌≡◌, ◌⊎◌, refl, sym, ap, ◌∙◌, arith, All,
  length, take, length-take, length-append, inl, inr, Bool-cases, success, failed,
}
use net_chunk.Libc.Text.{same_text, same_text_iff, same_text_refl}
use net_chunk.Manifest.Types.{temp_suffix}
use net_chunk.Libc.Files.{Files, put, put_other}
use net_chunk.Manifest.Files.{Writing, temp_path, move, write_file_atomically}

-- A path of at most 1022 characters is not that of its temporary file.
temp_path_other : (path : List ℕ) → length path < 1023 → same_text path (temp_path path) ≡ false
unfolding temp_path
temp_path_other path short = elim (Bool-cases (same_text path (take 1023 (path ++ temp_suffix)))) [
  | inr other ↦ other
  | inl same ↦
      let equal : path ≡ take 1023 (path ++ temp_suffix) =
        (same_text_iff path (take 1023 (path ++ temp_suffix))).0 same in
      absurd (
        omega (
          arith,
          ap length equal,
          length-take 1023 (path ++ temp_suffix),
          length-append path temp_suffix,
        ))
]

move_there :
    (fs : Files) (path temp content : List ℕ)
    → same_text path temp ≡ false
    → move (put fs temp (some content)) temp path path ≡ some content
move_there fs path temp content e =
    let back : same_text temp path ≡ false = elim (Bool-cases (same_text temp path)) [
      | inr f ↦ f
      | inl f ↦
          absurd
            (ground (arith, e, (same_text_iff path temp).1 (sym ((same_text_iff temp path).0 f))))
    ] in
    rw (back, e, same_text_refl path, same_text_refl temp) refl

-- At the path stands what stood there before, or the new content.
abbrev pub IsOldOrNew : List ℕ → Option (List ℕ) → List ℕ → Files → Type 0
IsOldOrNew path old new fs = (fs path ≡ old) ⊎ (fs path ≡ some new)

-- Whenever an atomic write is cut short, the file at the path holds its old content or the whole new
-- one; with SUCCESS it ends with the new one, with an error with the old one. The path is at most
-- 1022 characters long.
pub write_file_atomically_lem :
    (w : Writing) (path content : List ℕ) (fs : Files)
    → length path < 1023
    → let (code, trace) = write_file_atomically w path content fs in
      All (IsOldOrNew path (fs path) content) trace.passed
      × ((code ≡ success) → trace.last path ≡ some content)
      × ((failed code ≡ true) → trace.last path ≡ fs path)
unfolding write_file_atomically
write_file_atomically_lem w path content fs short =
    let temp = temp_path path in
    let other = temp_path_other path short in
    let created = put fs temp (some []) in
    let partly = put created temp (some (take w.partial content)) in
    let whole = put partly temp (some content) in
    let c = put_other fs path temp (some []) other in
    let p = put_other created path temp (some (take w.partial content)) other ∙ c in
    let f = put_other partly path temp (some content) other ∙ p in
    let none_left = put_other partly path temp none other ∙ p in
    let none_whole = put_other whole path temp none other ∙ f in
    let moved = move_there partly path temp content other in
    elim (Bool-cases w.opened) [
      | inr o ↦ rw (write_file_atomically, o) (tt, λ e. cc, λ e. refl)
      | inl o ↦ elim (Bool-cases w.printed) [
        | inr q ↦
            rw (write_file_atomically, o, q)
              ((inl refl, (inl c, (inl p, tt))), λ e. cc, λ e. none_left)
        | inl q ↦ elim (Bool-cases w.flushed) [
          | inr d ↦
              rw (write_file_atomically, o, q, d)
                ((inl refl, (inl c, (inl p, tt))), λ e. cc, λ e. none_left)
          | inl d ↦ elim (Bool-cases w.renamed) [
            | inr n ↦
                rw (write_file_atomically, o, q, d, n)
                  ((inl refl, (inl c, (inl p, (inl f, tt)))), λ e. cc, λ e. none_whole)
            | inl n ↦
                rw (write_file_atomically, o, q, d, n)
                  ((inl refl, (inl c, (inl p, (inl f, tt)))), λ e. moved, λ e. cc)
          ]
        ]
      ]
    ]
