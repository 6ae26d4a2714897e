-- ===== src/Chunker/TableRemove.antt =====
-- The table of locations: what adding a new entry and removing one do.
use net_chunk.Base.{
  ℕ, suc, none, some, List, [], ◌∷◌, ◌++◌, ◌≡◌, ◌≢◌, refl, sym, arith, length, Bool-cases,
  Option-cases, inl, inr,
}
use mathlib.Core.Path.{subst, subst₂}
use net_chunk.Libc.Text.{same_text, same_text_iff}
use net_chunk.Chunker.Types.{Location}
use net_chunk.Chunker.Locations.{find_server, remove_server}
use net_chunk.Chunker.Table.{Absent, AreDistinct, Absent-find}

Absent-append :
    (k : List ℕ) (ls : List Location) (l : Location)
    → Absent k ls
    → l.server_id ≢ k
    → Absent k (ls ++ (l ∷ []))
Absent-append k [] l a n = (n, tt)
Absent-append k (x ∷ ls) l a n = (a.0, Absent-append k ls l a.1 n)

pub append-AreDistinct :
    (ls : List Location) (l : Location)
    → Absent l.server_id ls
    → AreDistinct ls
    → AreDistinct (ls ++ (l ∷ []))
append-AreDistinct [] l a d = (tt, tt)
append-AreDistinct (x ∷ ls) l a d =
    (Absent-append x.server_id ls l d.0 (λ e. a.0 (sym e)), append-AreDistinct ls l a.1 d.1)

module _ (key : List ℕ) where
  pub length-remove :
      (ls ls' : List Location) → remove_server key ls ≡ some ls' → suc (length ls') ≡ length ls
  unfolding remove_server
  length-remove [] ls' h = cc
  length-remove (l ∷ ls) ls' h = elim (Option-cases (remove_server key ls)) [
    | inl missing ↦ ground arith
    | inr (rest, e) ↦ ground (arith, length-remove ls rest e)
  ]

  pub find-remove_ne :
      (k : List ℕ) (ls ls' : List Location)
      → k ≢ key
      → remove_server key ls ≡ some ls'
      → find_server k ls' ≡ find_server k ls
  unfolding find_server remove_server
  find-remove_ne k [] ls' ne h = cc
  find-remove_ne k (l ∷ ls) ls' ne h = elim (Option-cases (remove_server key ls)) [
    | inl missing ↦ ground (arith, same_text_iff l.server_id key, same_text_iff l.server_id k)
    | inr (rest, e) ↦ ground (
      arith,
      same_text_iff l.server_id key,
      same_text_iff l.server_id k,
      find-remove_ne k ls rest ne e,
    )
  ]

  Absent-remove :
      (k : List ℕ) (ls ls' : List Location)
      → remove_server key ls ≡ some ls'
      → Absent k ls
      → Absent k ls'
  unfolding remove_server
  Absent-remove k [] ls' h a = cc
  Absent-remove k (l ∷ ls) ls' h a = elim (Option-cases (remove_server key ls)) [
    | inl missing ↦ ground arith
    | inr (rest, e) ↦ ground (arith, Absent-remove k ls rest e a.1)
  ]

  pub remove-AreDistinct :
      (ls ls' : List Location) → remove_server key ls ≡ some ls' → AreDistinct ls → AreDistinct ls'
  unfolding remove_server
  remove-AreDistinct [] ls' h a = cc
  remove-AreDistinct (l ∷ ls) ls' h a = elim (Option-cases (remove_server key ls)) [
    | inl missing ↦ ground arith
    | inr (rest, e) ↦
        ground (arith, Absent-remove l.server_id ls rest e a.0, remove-AreDistinct ls rest e a.1)
  ]

  -- In a table without doubles nothing of the server is left.
  remove_gone :
      (ls ls' : List Location) → remove_server key ls ≡ some ls' → AreDistinct ls → Absent key ls'
  unfolding remove_server
  remove_gone [] ls' h a = cc
  remove_gone (l ∷ ls) ls' h a = elim (Bool-cases (same_text l.server_id key)) [
    | inl same ↦
        let here : l.server_id ≡ key = (same_text_iff l.server_id key).0 same in
        let out : ls ≡ ls' = ground arith in subst₂ Absent here out a.0
    | inr other ↦ elim (Option-cases (remove_server key ls)) [
      | inl missing ↦ ground arith
      | inr (rest, e) ↦
          let out : l ∷ rest ≡ ls' = ground arith in
          let ne : l.server_id ≢ key = ground (arith, same_text_iff l.server_id key) in
          subst (Absent key) out (ne, remove_gone ls rest e a.1)
    ]
  ]

  pub find-remove_self :
      (ls ls' : List Location)
      → remove_server key ls ≡ some ls'
      → AreDistinct ls
      → find_server key ls' ≡ none
  find-remove_self ls ls' h d = Absent-find key ls' (remove_gone ls ls' h d)

  pub remove_none : (ls : List Location) → remove_server key ls ≡ none → find_server key ls ≡ none
  unfolding find_server remove_server
  remove_none [] h = refl
  remove_none (l ∷ ls) h = ground (arith, remove_none ls)
