-- ===== src/Chunker/LocationLaws.antt =====
-- `netchunk_chunk_add_location`, `_remove_location` and `_find_location` of src/chunker.c, as
-- operations on a map from servers to locations.
use net_chunk.Base.{
  ℕ, suc, ◌<◌, false, none, some, List, [], ◌∷◌, ◌++◌, ◌≡◌, ◌≢◌, ◌⊎◌, refl, ap, ◌∙◌, arith, ltb,
  ◌==◌, ==_iff, ◌||◌, is_some, if◌then◌else◌, length, length-append, Bool-cases, Option-cases, inl,
  inr, success, invalid_argument,
}
use net_chunk.Base.Int.{pos}
use net_chunk.Libc.Decimal.{decimal, decimal_injective}
use net_chunk.Chunker.Types.{Location, Chunk, max_chunk_locations}
use net_chunk.Chunker.Locations.{
  find_server, update_server, remove_server, stored_path, new_location, add_location,
  remove_location, find_location,
}
use net_chunk.Chunker.Table.{
  Holds, IsFresh, IsTable, find-Absent, find-update_self, find-update_ne, length-update,
  update_none, update_some, update-AreDistinct, find-append_self, find-append_ne,
}
use net_chunk.Chunker.TableRemove.{
  append-AreDistinct, length-remove, find-remove_ne, find-remove_self, remove-AreDistinct,
}

module _ (chunk chunk' : Chunk) (n : ℕ) (path : List ℕ) (now : ℕ)
    (done : add_location chunk (pos n) path now ≡ (success, chunk')) where
  abbrev added : Location
  added = new_location (decimal n) (stored_path path) now

  -- The two ways in which the call succeeds.
  outcome :
      (update_server (decimal n) (stored_path path) now chunk.locations ≡ some chunk'.locations)
      ⊎ ((find_server (decimal n) chunk.locations ≡ none)
          × (length chunk.locations < max_chunk_locations)
          × (chunk'.locations ≡ chunk.locations ++ (added ∷ [])))
  unfolding add_location
  outcome = elim (Option-cases (update_server (decimal n) (stored_path path) now chunk.locations)) [
    | inr (ls, e) ↦ inl (ground arith)
    | inl missing ↦ inr (
      update_none (decimal n) (stored_path path) now chunk.locations missing,
      ground arith,
      ground arith,
    )
  ]

  -- After a successful addition the server is found, with the path cut to its array, the time of
  -- the call, and not verified; what is found for any other server stays.
  pub find_location-add_location :
      (m : ℕ)
      → Holds (IsFresh (decimal n) (stored_path path) now) (find_location chunk' (pos n))
        × (find_location chunk' (pos m)
            ≡ (if m == n then find_location chunk' (pos n) else find_location chunk (pos m)))
  unfolding find_location
  find_location-add_location m = (
    self,
    elim (Bool-cases (m == n)) [
      | inl same ↦
          rw same (ap (λ k. find_server (decimal k) chunk'.locations) ((==_iff m n).0 same))
      | inr other ↦ rw other (rest (ground arith))
    ],
  )
    where
      self : Holds (IsFresh (decimal n) (stored_path path) now) (find_location chunk' (pos n))
      self = elim outcome [
        | inl e ↦
            find-update_self (decimal n) (stored_path path) now chunk.locations chunk'.locations e
        | inr (missing, room, e) ↦
            rw e (rw (find-append_self chunk.locations added missing) (refl, refl, refl, refl))
      ]

      rest : m ≢ n → find_location chunk' (pos m) ≡ find_location chunk (pos m)
      rest ne = elim outcome [
        | inl e ↦
            find-update_ne (decimal n) (stored_path path) now (decimal m) chunk.locations
              chunk'.locations (λ d. ne (decimal_injective m n d)) e
        | inr (missing, room, e) ↦
            rw e
              (find-append_ne (decimal m) chunk.locations added (λ d. ne (decimal_injective m n d)))
      ]

  -- A successful addition keeps the invariant: at most ten entries, no two of one server.
  pub add_location-IsTable : IsTable chunk.locations → IsTable chunk'.locations
  add_location-IsTable t = elim outcome [
    | inl e ↦ record {
      room = omega (
        arith,
        length-update (decimal n) (stored_path path) now chunk.locations chunk'.locations e,
        t.room,
      );
      distinct =
          update-AreDistinct (decimal n) (stored_path path) now chunk.locations chunk'.locations e
            t.distinct;
    }
    | inr (missing, room, e) ↦ rw e (record {
      room = omega (arith, length-append chunk.locations (added ∷ []), room);
      distinct =
          append-AreDistinct chunk.locations added (find-Absent (decimal n) chunk.locations missing)
            t.distinct;
    })
  ]

-- For a server number that is not negative, adding succeeds exactly if the server has an entry
-- or the table is not full, and otherwise returns INVALID_ARGUMENT and leaves the chunk as it
-- was.
pub add_location_outcome :
    (chunk : Chunk) (n : ℕ) (path : List ℕ) (now : ℕ)
    → add_location chunk (pos n) path now ≡ (
        if is_some (find_location chunk (pos n)) || ltb (length chunk.locations) max_chunk_locations
        then (success, (add_location chunk (pos n) path now).1)
        else (invalid_argument, chunk))
unfolding add_location find_location
add_location_outcome chunk n path now =
    elim (Option-cases (update_server (decimal n) (stored_path path) now chunk.locations)) [
      | inr (ls, e) ↦
          rw (update_some (decimal n) (stored_path path) now chunk.locations ls e) (ground arith)
      | inl missing ↦
          ground (arith, update_none (decimal n) (stored_path path) now chunk.locations missing)
    ]

module _ (chunk chunk' : Chunk) (n : ℕ) (table : IsTable chunk.locations)
    (done : remove_location chunk (pos n) ≡ (success, chunk')) where
  removed : remove_server (decimal n) chunk.locations ≡ some chunk'.locations
  unfolding remove_location
  removed = elim (Option-cases (remove_server (decimal n) chunk.locations)) [
    | inl missing ↦ ground arith
    | inr (ls, e) ↦ ground arith
  ]

  -- In a table that meets the invariant, a removed location is found no more, what is found for
  -- any other server stays, the table is one shorter, and it meets the invariant.
  pub find_location-remove_location :
      (m : ℕ)
      → (find_location chunk' (pos m) ≡ (if m == n then none else find_location chunk (pos m)))
        × (suc (length chunk'.locations) ≡ length chunk.locations)
        × IsTable chunk'.locations
  unfolding find_location
  find_location-remove_location m =
      let shorter = length-remove (decimal n) chunk.locations chunk'.locations removed in
      (
        elim (Bool-cases (m == n)) [
          | inl same ↦ rw same (
              ap (λ k. find_server (decimal k) chunk'.locations) ((==_iff m n).0 same)
              ∙ find-remove_self (decimal n) chunk.locations chunk'.locations removed
                  table.distinct)
          | inr other ↦ rw other (
              find-remove_ne (decimal n) (decimal m) chunk.locations chunk'.locations
                (λ d. absurd_of other (decimal_injective m n d)) removed)
        ],
        shorter,
        record {
          room = omega (arith, shorter, table.room);
          distinct =
              remove-AreDistinct (decimal n) chunk.locations chunk'.locations removed
                table.distinct;
        },
      )
    where
      absurd_of : (m == n) ≡ false → m ≢ n
      absurd_of h = ground arith
