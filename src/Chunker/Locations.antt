-- ===== src/Chunker/Locations.antt =====
-- The location table of a chunk: `netchunk_chunk_add_location`, `_remove_location`,
-- `_find_location` and `_get_best_location` of src/chunker.c.
use net_chunk.Base.{
  ℕ, ◌-◌, false, Option, none, some, List, [], ◌∷◌, ◌++◌, leb, if◌then◌else◌, length, take,
  ErrorCode, success, invalid_argument, file_not_found,
}
use net_chunk.Base.Int.{ℤ, pos, negsuc}
use net_chunk.Libc.Text.{same_text}
use net_chunk.Libc.Decimal.{decimal}
use net_chunk.Chunker.Types.{Location, Chunk, max_chunk_locations, max_path_len}

-- The first location of the server.
unfoldable pub find_server : List ℕ → List Location → Option Location
find_server key [] = none
find_server key (l ∷ ls) = if same_text l.server_id key then some l else find_server key ls

-- The first location of the server brought up to date, if there is one.
unfoldable pub update_server : List ℕ → List ℕ → ℕ → List Location → Option (List Location)
update_server key path now [] = none
update_server key path now (l ∷ ls) =
    if same_text l.server_id key
    then some (record l { remote_path = path; upload_time = now; verified = false } ∷ ls)
    else (elim (update_server key path now ls) [ none ↦ none | some ls' ↦ some (l ∷ ls') ])

-- The first location of the server taken out, the later ones moved down, if there is one.
unfoldable pub remove_server : List ℕ → List Location → Option (List Location)
remove_server key [] = none
remove_server key (l ∷ ls) =
    if same_text l.server_id key
    then some ls
    else (elim (remove_server key ls) [ none ↦ none | some ls' ↦ some (l ∷ ls') ])

-- `strncpy` into a path array.
abbrev pub stored_path : List ℕ → List ℕ
stored_path path = take (max_path_len - 1) path

abbrev pub new_location : List ℕ → List ℕ → ℕ → Location
new_location key path now = record {
  server_id = key;
  remote_path = path;
  upload_time = now;
  verified = false;
  last_verified = 0;
}

unfoldable pub add_location : Chunk → ℤ → List ℕ → ℕ → ErrorCode × Chunk
add_location chunk (negsuc n) remote_path now = (invalid_argument, chunk)
add_location chunk (pos n) remote_path now =
    let key = decimal n in
    let path = stored_path remote_path in
    elim (update_server key path now chunk.locations) [
      | some locations ↦ (success, record chunk { locations = locations })
      | none ↦
          if leb max_chunk_locations (length chunk.locations) then (invalid_argument, chunk) else (
            success,
            record chunk { locations = chunk.locations ++ (new_location key path now ∷ []) },
          )
    ]

unfoldable pub remove_location : Chunk → ℤ → ErrorCode × Chunk
remove_location chunk (negsuc n) = (invalid_argument, chunk)
remove_location chunk (pos n) = elim (remove_server (decimal n) chunk.locations) [
  | some locations ↦ (success, record chunk { locations = locations })
  | none ↦ (file_not_found, chunk)
]

-- `none` is NULL.
unfoldable pub find_location : Chunk → ℤ → Option Location
find_location chunk (negsuc n) = none
find_location chunk (pos n) = find_server (decimal n) chunk.locations

-- The loop over the preferences.
unfoldable pub first_preferred : Chunk → List ℤ → Option Location
first_preferred chunk [] = none
first_preferred chunk (p ∷ ps) = elim (find_location chunk p) [
  | some l ↦ some l
  | none ↦ first_preferred chunk ps
]

unfoldable pub get_best_location : Chunk → List ℤ → Option Location
get_best_location chunk preferences = elim chunk.locations [
  | [] ↦ none
  | l ∷ ls ↦ (elim (first_preferred chunk preferences) [ some best ↦ some best | none ↦ some l ])
]
