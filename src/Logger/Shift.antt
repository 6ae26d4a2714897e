-- ===== src/Logger/Shift.antt =====
-- What the loop over the backups in `netchunk_logger_rotate` of src/logger.c leaves.
use mathlib.Core.Path.{subst}
use net_chunk.Base.{
  ℕ, zero, suc, ◌+◌, ◌<◌, ◌≤◌, Bool, true, none, List, ◌≡◌, ◌≢◌, refl, sym, ◌∙◌, arith, ◌==◌,
  ==_iff, inl, inr, Bool-cases,
}
use net_chunk.Libc.Files.{Files}
use net_chunk.Logger.Write.{rename_file, shift_backups}
use net_chunk.Logger.Rotation.{name, Fit, rename_from, rename_to, rename_other}

-- The backups 1 to `m` have moved one up, and the first place is free.
pub record IsShifted (path : List ℕ) (n m : ℕ) (fs fs' : Files) : Type 0 where
  pub current : fs' (name path 0) ≡ fs (name path 0)
  pub first : 1 ≤ m → fs' (name path 1) ≡ none
  pub moved : (j : ℕ) → 1 ≤ j → j ≤ m → fs' (name path (suc j)) ≡ fs (name path j)
  pub above : (j : ℕ) → m + 1 < j → j ≤ n → fs' (name path j) ≡ fs (name path j)

-- Behind a missing backup there is none.
abbrev pub HasNoGap : List ℕ → ℕ → Files → Type 0
HasNoGap path m fs =
    (j : ℕ) → 1 ≤ j → j ≤ m → fs (name path j) ≡ none → fs (name path (suc j)) ≡ none

module _ (path : List ℕ) (n : ℕ) (fit : Fit path n) (moves : ℕ → Bool)
    (granted : (i : ℕ) → moves i ≡ true) where
  -- One turn of the loop.
  abbrev turn : ℕ → Files → Files
  turn m fs = rename_file true (name path (suc m)) (name path (suc (suc m))) fs

  turn_other :
      (m j : ℕ) (fs : Files)
      → suc (suc m) ≤ n
      → j ≤ n
      → j ≢ suc m
      → j ≢ suc (suc m)
      → turn m fs (name path j) ≡ fs (name path j)
  turn_other m j fs le lj na nb =
      rename_other path n fit (suc m) (suc (suc m)) j fs (omega arith) le lj
        (λ e. absurd (omega (arith, e))) na nb

  turn_to :
      (m : ℕ) (fs : Files)
      → suc (suc m) ≤ n
      → HasNoGap path (suc m) fs
      → turn m fs (name path (suc (suc m))) ≡ fs (name path (suc m))
  turn_to m fs le gap =
      rename_to path n fit (suc m) (suc (suc m)) fs (omega arith) le
        (λ e. absurd (omega (arith, e))) (gap (suc m) (omega arith) (omega arith))

  turn_from : (m : ℕ) (fs : Files) → suc (suc m) ≤ n → turn m fs (name path (suc m)) ≡ none
  turn_from m fs le =
      rename_from path n fit (suc m) (suc (suc m)) fs (omega arith) le
        (λ e. absurd (omega (arith, e)))

  turn_gap :
      (m : ℕ) (fs : Files)
      → suc (suc m) ≤ n
      → HasNoGap path (suc m) fs
      → HasNoGap path m (turn m fs)
  turn_gap m fs le gap j pos lj missing =
      let same =
        turn_other m j fs le (omega arith) (λ e. absurd (omega (arith, e)))
          (λ e. absurd (omega (arith, e))) in
      elim (Bool-cases (j == m)) [
        | inl e ↦
            subst (λ k. turn m fs (name path (suc k)) ≡ none) (sym ((==_iff j m).0 e))
              (turn_from m fs le)
        | inr e ↦
            turn_other m (suc j) fs le (omega arith) (ground (arith, e))
              (λ h. absurd (omega (arith, h)))
            ∙ gap j pos (omega arith) (sym same ∙ missing)
      ]

  shifted_first :
      (m : ℕ) (fs : Files)
      → suc (suc m) ≤ n
      → IsShifted path n m (turn m fs) (shift_backups moves path m (turn m fs))
      → shift_backups moves path m (turn m fs) (name path 1) ≡ none
  unfolding shift_backups
  shifted_first zero fs le s = turn_from 0 fs le
  shifted_first (suc m) fs le s = s.first (omega arith)

  shifted_moved :
      (m : ℕ) (fs : Files)
      → suc (suc m) ≤ n
      → HasNoGap path (suc m) fs
      → IsShifted path n m (turn m fs) (shift_backups moves path m (turn m fs))
      → (j : ℕ) → 1 ≤ j
      → j ≤ suc m
      → shift_backups moves path m (turn m fs) (name path (suc j)) ≡ fs (name path j)
  shifted_moved m fs le gap s j pos lj = elim (Bool-cases (j == suc m)) [
    | inl e ↦
        subst (λ k. shift_backups moves path m (turn m fs) (name path (suc k)) ≡ fs (name path k))
          (sym ((==_iff j (suc m)).0 e))
          (s.above (suc (suc m)) (omega arith) le ∙ turn_to m fs le gap)
    | inr e ↦
        s.moved j pos (ground (arith, e))
        ∙ turn_other m j fs le (omega arith) (ground (arith, e)) (λ h. absurd (omega (arith, h)))
  ]

  pub shift_backups-IsShifted :
      (m : ℕ) (fs : Files)
      → m + 1 ≤ n
      → HasNoGap path m fs
      → IsShifted path n m fs (shift_backups moves path m fs)
  unfolding shift_backups
  shift_backups-IsShifted zero fs le gap = record {
    current = refl;
    first = λ h. absurd (omega arith);
    moved = λ j a b. absurd (omega arith);
    above = λ j a b. refl;
  }
  shift_backups-IsShifted (suc m) fs le gap =
      let two : suc (suc m) ≤ n = omega arith in
      let s = shift_backups-IsShifted m (turn m fs) (omega arith) (turn_gap m fs two gap) in
      rw (shift_backups, granted (suc m))
        (record {
          current =
              s.current
              ∙ turn_other m 0 fs two (omega arith) (λ e. absurd (omega (arith, e)))
                  (λ e. absurd (omega (arith, e)));
          first = λ h. shifted_first m fs two s;
          moved = shifted_moved m fs two gap s;
          above = λ j a b.
              s.above j (omega arith) b
              ∙ turn_other m j fs two b (λ e. absurd (omega (arith, e)))
                  (λ e. absurd (omega (arith, e)));
        })
