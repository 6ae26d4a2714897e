-- ===== src/Logger/Rotated.antt =====
-- A rotation and an appended line of src/logger.c, in the history of the log.
use net_chunk.Base.{
  ℕ, zero, suc, ◌+◌, ◌-◌, ◌^◌, ◌<◌, ◌≤◌, Bool, true, none, some, List, [], ◌∷◌, ◌++◌, ◌≡◌, refl,
  sym, ◌∙◌, arith, length, take, length-append, get_elem?,
}
use net_chunk.Base.Int.{pos, pos_part, ◌-ℤ◌}
use net_chunk.Libc.Text.{same_text_refl}
use net_chunk.Libc.Files.{Files, put, put_other}
use net_chunk.Logger.Types.{Logger}
use net_chunk.Logger.Write.{rename_file, shift_backups, rotate, append_line}
use net_chunk.Logger.Rotation.{name, names_differ, rename_to, rename_other}
use net_chunk.Logger.Shift.{IsShifted, HasNoGap, shift_backups-IsShifted}
use net_chunk.Logger.History.{History, IsLog}

get_elem?-take :
    (n : ℕ) (xs : List (List ℕ)) (i : ℕ) → i < n → get_elem? (take n xs) i ≡ get_elem? xs i
unfolding take
get_elem?-take zero xs i h = absurd (omega arith)
get_elem?-take (suc n) [] i h = refl
get_elem?-take (suc n) (x ∷ xs) zero h = refl
get_elem?-take (suc n) (x ∷ xs) (suc i) h = get_elem?-take n xs i (omega arith)

get_elem?_gap : (xs : List (List ℕ)) (i : ℕ) → get_elem? xs i ≡ none → get_elem? xs (suc i) ≡ none
get_elem?_gap [] i h = refl
get_elem?_gap (x ∷ xs) zero h = cc
get_elem?_gap (x ∷ []) (suc i) h = refl
get_elem?_gap (x ∷ y ∷ xs) (suc i) h = get_elem?_gap (y ∷ xs) i h

one_less : (n : ℕ) → 1 ≤ n → pos_part (pos n -ℤ pos 1) ≡ n - 1
unfolding ◌-ℤ◌
one_less n h = ground arith

module _ (moves : ℕ → Bool) (granted : (i : ℕ) → moves i ≡ true) where
  -- The files behind the last `rename` of a rotation.
  abbrev moved_files : ℕ → List ℕ → Files → Files
  moved_files n path fs = rename_file true path (name path 1) (shift_backups moves path (n - 1) fs)

  module _ (n : ℕ) (logger : Logger) (fs : Files) (h : History) (l : IsLog n logger fs h) where
    no_gap : HasNoGap logger.config.log_file_path (n - 1) fs
    no_gap zero one le missing = absurd (omega (arith, one))
    no_gap (suc j) one le missing =
        l.stored (suc j) (omega (arith, le, l.some_backups))
        ∙ get_elem?_gap h.backups j (sym (l.stored j (omega (arith, le))) ∙ missing)

    shifted :
        IsShifted logger.config.log_file_path n
          (n - 1)
          fs
          (shift_backups moves logger.config.log_file_path (n - 1) fs)
    shifted =
        shift_backups-IsShifted logger.config.log_file_path n l.fit moves granted (n - 1) fs
          (omega (arith, l.some_backups)) no_gap

    rotated_stored :
        (i : ℕ)
        → i < n
        → moved_files n logger.config.log_file_path fs (name logger.config.log_file_path (suc i))
          ≡ get_elem? (h.current ∷ h.backups) i
    rotated_stored zero le =
        let path = logger.config.log_file_path in
        rename_to path n l.fit 0 1 (shift_backups moves path (n - 1) fs) (omega arith)
          l.some_backups (λ e. absurd (omega (arith, e)))
          (λ missing.
            let clash : none ≡ some h.current = sym missing ∙ shifted.current ∙ l.here in cc)
        ∙ shifted.current
        ∙ l.here
    rotated_stored (suc k) le =
        let path = logger.config.log_file_path in
        rename_other path n l.fit 0 1 (suc (suc k)) (shift_backups moves path (n - 1) fs)
          (omega arith) l.some_backups le (λ e. absurd (omega (arith, e)))
          (λ e. absurd (omega (arith, e))) (λ e. absurd (omega (arith, e)))
        ∙ shifted.moved (suc k) (omega arith) (omega (arith, le))
        ∙ l.stored k (omega (arith, le))

    -- A rotation begins a new file.
    pub rotated : Logger × Files
    rotated = (
      record logger { log_file = true; current_file_size = 0 },
      put (moved_files n logger.config.log_file_path fs) logger.config.log_file_path (some []),
    )

    pub rotate_lem : (rotate moves true logger fs).1 ≡ rotated
    unfolding rotate rotated
    rotate_lem =
        rw (rotate, l.started, l.to_file, l.backup_count, one_less n l.some_backups, granted 0) refl

    pub rotated-IsLog :
        IsLog n rotated.0 rotated.1
          (record { current = []; backups = take n (h.current ∷ h.backups) })
    unfolding rotated
    rotated-IsLog =
        let path = logger.config.log_file_path in
        record {
          started = l.started;
          to_file = l.to_file;
          is_open = refl;
          backup_count = l.backup_count;
          some_backups = l.some_backups;
          fit = l.fit;
          limit_small = l.limit_small;
          small = omega arith;
          size = refl;
          here = rw (same_text_refl path) refl;
          stored = λ i le.
              put_other (moved_files n path fs) (name path (suc i)) path (some []) (
                names_differ path n l.fit (suc i) 0 le (omega arith)
                  (λ e. absurd (omega (arith, e))))
              ∙ rotated_stored i le
              ∙ sym (get_elem?-take n (h.current ∷ h.backups) i le);
        }

    pub append_line-IsLog :
        (line : List ℕ)
        → length h.current + length line < 2 ^ 63
        → IsLog n
            (append_line line (logger, fs)).0
            (append_line line (logger, fs)).1
            (record h { current = h.current ++ line })
    unfolding append_line
    append_line-IsLog line few =
        let path = logger.config.log_file_path in
        rw (append_line, l.is_open, l.here)
          (record {
            started = l.started;
            to_file = l.to_file;
            is_open = refl;
            backup_count = l.backup_count;
            some_backups = l.some_backups;
            fit = l.fit;
            limit_small = l.limit_small;
            small = omega (arith, few, length-append h.current line);
            size = omega (arith, few, l.size, length-append h.current line);
            here = rw (same_text_refl path) refl;
            stored = λ i le.
                put_other fs (name path (suc i)) path (some (h.current ++ line)) (
                  names_differ path n l.fit (suc i) 0 le (omega arith)
                    (λ e. absurd (omega (arith, e))))
                ∙ l.stored i le;
          })
