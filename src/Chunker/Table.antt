-- ===== src/Chunker/Table.antt =====
-- The table of locations: its invariant, and what the update of one entry does.
use net_chunk.Base.{
  ℕ, ◌≤◌, true, false, Option, none, some, List, [], ◌∷◌, ◌++◌, ◌≡◌, ◌≢◌, refl, arith, is_some,
  length, Option-cases, inl, inr,
}
use net_chunk.Libc.Text.{same_text_iff}
use net_chunk.Chunker.Types.{Location, max_chunk_locations}
use net_chunk.Chunker.Locations.{find_server, update_server}

-- There is a value, and the predicate holds of it.
abbrev pub Holds {ℓ} : {A : Type ℓ} → (A → Type 0) → Option A → Type 0
Holds P none = ⊥
Holds P (some a) = P a

-- What an added location holds.
abbrev pub IsFresh : List ℕ → List ℕ → ℕ → Location → Type 0
IsFresh key path now l =
    (l.server_id ≡ key) × (l.remote_path ≡ path) × (l.upload_time ≡ now) × (l.verified ≡ false)

-- No two entries are of one server.
abbrev pub Absent : List ℕ → List Location → Type 0
Absent key [] = Unit
Absent key (l ∷ ls) = (l.server_id ≢ key) × Absent key ls

abbrev pub AreDistinct : List Location → Type 0
AreDistinct [] = Unit
AreDistinct (l ∷ ls) = Absent l.server_id ls × AreDistinct ls

-- The table's invariant.
pub record IsTable (ls : List Location) : Type 0 where
  pub room : length ls ≤ max_chunk_locations
  pub distinct : AreDistinct ls

pub find-Absent : (key : List ℕ) (ls : List Location) → find_server key ls ≡ none → Absent key ls
unfolding find_server
find-Absent key [] h = tt
find-Absent key (l ∷ ls) h =
    (ground (arith, same_text_iff l.server_id key), find-Absent key ls (ground arith))

pub Absent-find : (key : List ℕ) (ls : List Location) → Absent key ls → find_server key ls ≡ none
unfolding find_server
Absent-find key [] h = refl
Absent-find key (l ∷ ls) h =
    ground (arith, same_text_iff l.server_id key, Absent-find key ls h.1, h.0)

module _ (key path : List ℕ) (now : ℕ) where
  pub find-update_self :
      (ls ls' : List Location)
      → update_server key path now ls ≡ some ls'
      → Holds (IsFresh key path now) (find_server key ls')
  unfolding find_server update_server
  find-update_self [] ls' h = cc
  find-update_self (l ∷ ls) ls' h = elim (Option-cases (update_server key path now ls)) [
    | inl missing ↦ ground (arith, same_text_iff l.server_id key)
    | inr (rest, e) ↦ ground (arith, same_text_iff l.server_id key, find-update_self ls rest e)
  ]

  pub find-update_ne :
      (k : List ℕ) (ls ls' : List Location)
      → k ≢ key
      → update_server key path now ls ≡ some ls'
      → find_server k ls' ≡ find_server k ls
  unfolding find_server update_server
  find-update_ne k [] ls' ne h = cc
  find-update_ne k (l ∷ ls) ls' ne h = elim (Option-cases (update_server key path now ls)) [
    | inl missing ↦ ground (arith, same_text_iff l.server_id key, same_text_iff l.server_id k)
    | inr (rest, e) ↦ ground (
      arith,
      same_text_iff l.server_id key,
      same_text_iff l.server_id k,
      find-update_ne k ls rest ne e,
    )
  ]

  pub length-update :
      (ls ls' : List Location) → update_server key path now ls ≡ some ls' → length ls' ≡ length ls
  unfolding update_server
  length-update [] ls' h = cc
  length-update (l ∷ ls) ls' h = elim (Option-cases (update_server key path now ls)) [
    | inl missing ↦ ground arith
    | inr (rest, e) ↦ ground (arith, length-update ls rest e)
  ]

  -- The update fails exactly for a server that is not there.
  pub update_none :
      (ls : List Location) → update_server key path now ls ≡ none → find_server key ls ≡ none
  unfolding find_server update_server
  update_none [] h = refl
  update_none (l ∷ ls) h = ground (arith, update_none ls)

  pub update_some :
      (ls ls' : List Location)
      → update_server key path now ls ≡ some ls'
      → is_some (find_server key ls) ≡ true
  unfolding find_server update_server
  update_some [] ls' h = cc
  update_some (l ∷ ls) ls' h = elim (Option-cases (update_server key path now ls)) [
    | inl missing ↦ ground arith
    | inr (rest, e) ↦ ground (arith, update_some ls rest e)
  ]

  Absent-update :
      (k : List ℕ) (ls ls' : List Location)
      → update_server key path now ls ≡ some ls'
      → Absent k ls
      → Absent k ls'
  unfolding update_server
  Absent-update k [] ls' h a = cc
  Absent-update k (l ∷ ls) ls' h a = elim (Option-cases (update_server key path now ls)) [
    | inl missing ↦ ground arith
    | inr (rest, e) ↦ ground (arith, Absent-update k ls rest e a.1)
  ]

  pub update-AreDistinct :
      (ls ls' : List Location)
      → update_server key path now ls ≡ some ls'
      → AreDistinct ls
      → AreDistinct ls'
  unfolding update_server
  update-AreDistinct [] ls' h a = cc
  update-AreDistinct (l ∷ ls) ls' h a = elim (Option-cases (update_server key path now ls)) [
    | inl missing ↦ ground arith
    | inr (rest, e) ↦
        ground (arith, Absent-update l.server_id ls rest e a.0, update-AreDistinct ls rest e a.1)
  ]

pub find-append_self :
    (ls : List Location) (l : Location)
    → find_server l.server_id ls ≡ none
    → find_server l.server_id (ls ++ (l ∷ [])) ≡ some l
unfolding find_server
find-append_self [] l h = ground (arith, same_text_iff l.server_id l.server_id)
find-append_self (x ∷ ls) l h = ground (arith, find-append_self ls l)

pub find-append_ne :
    (key : List ℕ) (ls : List Location) (l : Location)
    → key ≢ l.server_id
    → find_server key (ls ++ (l ∷ [])) ≡ find_server key ls
unfolding find_server
find-append_ne key [] l ne = ground (arith, same_text_iff l.server_id key)
find-append_ne key (x ∷ ls) l ne = ground (arith, find-append_ne key ls l ne)
