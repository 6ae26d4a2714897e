-- ===== src/Logger/Rotation.antt =====
-- The names of the log files of src/logger.c, and what the loop over the backups does to them.
use net_chunk.Base.{
  ℕ, zero, suc, ◌<◌, ◌≤◌, true, false, none, List, ◌++◌, ◌≡◌, ◌≢◌, refl, sym, ap, ◌∙◌, arith,
  length, drop, take_all, drop-append, length-append, inl, inr, Bool-cases, Option-cases,
}
use net_chunk.Libc.Text.{codes, same_text, same_text_iff, same_text_refl}
use net_chunk.Libc.Decimal.{decimal, decimal_injective}
use net_chunk.Libc.Files.{Files}
use net_chunk.Logger.Write.{backup_name, rename_file}

-- The log file has the number 0, its backups the numbers from 1 on.
abbrev pub name : List ℕ → ℕ → List ℕ
name path zero = path
name path (suc i) = backup_name path (suc i)

-- The names up to a number fit in their array.
abbrev pub Fit : List ℕ → ℕ → Type 0
Fit path n = (i : ℕ) → i ≤ n → length (path ++ (codes "." ++ decimal i)) ≤ 1023

append_cancel : (p x y : List ℕ) → p ++ x ≡ p ++ y → x ≡ y
append_cancel p x y e =
    sym (drop-append (length p) p x refl) ∙ ap (drop (length p)) e ∙ drop-append (length p) p y refl

module _ (path : List ℕ) (n : ℕ) (fit : Fit path n) where
  backup_name_whole : (i : ℕ) → i ≤ n → backup_name path i ≡ path ++ (codes "." ++ decimal i)
  unfolding backup_name
  backup_name_whole i le = take_all 1023 (path ++ (codes "." ++ decimal i)) (fit i le)

  name_longer : (i : ℕ) → suc i ≤ n → length path < length (name path (suc i))
  name_longer i le = omega (
    arith,
    ap length (backup_name_whole (suc i) le),
    length-append path (codes "." ++ decimal (suc i)),
  )

  name_injective : (i j : ℕ) → i ≤ n → j ≤ n → name path i ≡ name path j → i ≡ j
  name_injective zero zero le le' e = refl
  name_injective zero (suc j) le le' e = absurd (omega (arith, ap length e, name_longer j le'))
  name_injective (suc i) zero le le' e = absurd (omega (arith, ap length e, name_longer i le))
  name_injective (suc i) (suc j) le le' e =
      let dots =
        append_cancel path (codes "." ++ decimal (suc i)) (codes "." ++ decimal (suc j))
          (sym (backup_name_whole (suc i) le) ∙ e ∙ backup_name_whole (suc j) le') in
      decimal_injective (suc i) (suc j)
        (append_cancel (codes ".") (decimal (suc i)) (decimal (suc j)) dots)

  pub names_differ :
      (i j : ℕ) → i ≤ n → j ≤ n → i ≢ j → same_text (name path i) (name path j) ≡ false
  names_differ i j le le' ne = elim (Bool-cases (same_text (name path i) (name path j))) [
    | inr e ↦ e
    | inl e ↦
        absurd (ne (name_injective i j le le' ((same_text_iff (name path i) (name path j)).0 e)))
  ]

  -- A file that is moved over one that is not needed.
  pub rename_from :
      (a b : ℕ) (fs : Files)
      → a ≤ n
      → b ≤ n
      → a ≢ b
      → rename_file true (name path a) (name path b) fs (name path a) ≡ none
  unfolding rename_file
  rename_from a b fs la lb ne = elim (Option-cases (fs (name path a))) [
    | inl e ↦ rw (rename_file, e) e
    | inr (text, e) ↦
        rw (rename_file, e, names_differ a b la lb ne, same_text_refl (name path a)) refl
  ]

  pub rename_to :
      (a b : ℕ) (fs : Files)
      → a ≤ n
      → b ≤ n
      → a ≢ b
      → (fs (name path a) ≡ none → fs (name path b) ≡ none)
      → rename_file true (name path a) (name path b) fs (name path b) ≡ fs (name path a)
  unfolding rename_file
  rename_to a b fs la lb ne gap = elim (Option-cases (fs (name path a))) [
    | inl e ↦ rw (rename_file, e) (gap e)
    | inr (text, e) ↦
        rw
          (
            rename_file,
            e,
            names_differ a b la lb ne,
            names_differ b a lb la (λ h. ne (sym h)),
            same_text_refl (name path b),
          )
          refl
  ]

  pub rename_other :
      (a b j : ℕ) (fs : Files)
      → a ≤ n
      → b ≤ n
      → j ≤ n
      → a ≢ b
      → j ≢ a
      → j ≢ b
      → rename_file true (name path a) (name path b) fs (name path j) ≡ fs (name path j)
  unfolding rename_file
  rename_other a b j fs la lb lj ne na nb = elim (Option-cases (fs (name path a))) [
    | inl e ↦ rw (rename_file, e) refl
    | inr (text, e) ↦
        rw
          (
            rename_file,
            e,
            names_differ a b la lb ne,
            names_differ j a lj la na,
            names_differ j b lj lb nb,
          )
          refl
  ]
