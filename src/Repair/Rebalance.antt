-- ===== src/Repair/Rebalance.antt =====
-- `netchunk_repair_rebalance_chunks` of src/repair.c, over any FTP client.
use net_chunk.Base.{
  ℕ, zero, suc, ◌+◌, ◌-◌, ◌/◌, ◌%◌, Bool, true, false, not, ◌||◌, Option, none, some, List, [], ◌∷◌,
  ◌++◌, ltb, ◌==◌, if◌then◌else◌, length, get_or, set, replicate, invalid_argument, failed, is_some,
  Result, ok, err,
}
use net_chunk.Base.Int.{pos, ltb_ℤ}
use net_chunk.Libc.Text.{same_text}
use net_chunk.Chunker.Types.{Location, Chunk, max_chunk_locations}
use net_chunk.Config.Types.{Server, Config, max_servers}
use net_chunk.Manifest.Types.{FileManifest, chunks_of}
use net_chunk.Ftp.Remote.{Remote}
use net_chunk.Repair.Types.{RepairContext, ready, live, first_server}
use net_chunk.Repair.Replicate.{count_replica, placed}
use net_chunk.Repair.File.{put_chunks}

-- `server_chunk_count` and `total_chunks` behind the loop over the locations of a chunk.
unfoldable pub count_locations : List Server → List Location → List ℕ × ℕ → List ℕ × ℕ
count_locations servers [] (counts, total) = (counts, total)
count_locations servers (l ∷ ls) (counts, total) = count_locations servers ls (
  count_replica l.server_id servers counts,
  if is_some (first_server servers l.server_id) then suc total else total,
)

unfoldable pub count_chunks : List Server → List Chunk → List ℕ × ℕ → List ℕ × ℕ
count_chunks servers [] state = state
count_chunks servers (c ∷ cs) state =
    count_chunks servers cs (count_locations servers c.locations state)

-- The number of chunks that a server should have.
abbrev pub target_count : ℕ → ℕ → ℕ → ℕ
target_count average remainder s = average + (if ltb s remainder then 1 else 0)

-- The search for an underloaded server, from the number `s` on.
unfoldable pub find_underloaded : ℕ → ℕ → ℕ → List Server → List ℕ → Option (ℕ × Server)
find_underloaded average remainder s [] counts = none
find_underloaded average remainder s (server ∷ servers) counts =
    let rest = find_underloaded average remainder (suc s) servers counts in
    if ltb (get_or counts s 0) (target_count average remainder s) then some (s, server) else rest

-- `from_location_idx`: the last location on the server.
unfoldable pub last_index : List ℕ → ℕ → List Location → Option ℕ
last_index key j [] = none
last_index key j (l ∷ ls) = elim (last_index key (suc j) ls) [
  | some i ↦ some i
  | none ↦ if same_text l.server_id key then some j else none
]

-- `on_to_server`
unfoldable pub is_on_server : List ℕ → List Location → Bool
is_on_server key [] = false
is_on_server key (l ∷ ls) = same_text l.server_id key || is_on_server key ls

unfoldable pub remove_at : ℕ → List Location → List Location
remove_at j [] = []
remove_at zero (l ∷ ls) = ls
remove_at (suc j) (l ∷ ls) = l ∷ remove_at j ls

-- What the loops change: `counts` is `server_chunk_count`.
pub record Balance (W : Type 0) : Type 0 where
  pub world : W
  pub chunks : List Chunk
  pub counts : List ℕ
  pub moves : ℕ

module _ {W : Type 0} (r : Remote W) (clock : W → ℕ) (garbage : Location) where
  -- A location is added, and the old one removed if that leaves enough replicas.
  unfoldable pub relocate : Config → Server → Server → ℕ → Chunk → W → Chunk × W
  relocate config from to j chunk w =
      let grown = chunk.locations ++ (placed garbage to (clock w) ∷ []) in
      let chunk' : Chunk = record chunk { locations = grown } in
      if ltb_ℤ config.replication_factor (pos (length grown))
      then (record chunk { locations = remove_at j grown }, (r.delete_chunk from chunk' w).1)
      else (chunk', w)

  -- The attempt to move one chunk: whether it is moved.
  unfoldable pub move_chunk : Config → Server → Server → Chunk → W → Bool × (Chunk × W)
  move_chunk config from to chunk w = elim (last_index from.id 0 chunk.locations) [
    | none ↦ (false, (chunk, w))
    | some j ↦
        let (code, w1) = r.upload_chunk to chunk w in
        if is_on_server to.id chunk.locations
        then (false, (chunk, w))
        else if not (ltb (length chunk.locations) max_chunk_locations)
        then (false, (chunk, w))
        else if failed code
        then (false, (chunk, w1))
        else (true, relocate config from to j chunk w1)
  ]

  -- The loop over the chunks, up to the first that is moved.
  unfoldable pub move_first : Config → Server → Server → List Chunk → W → Bool × (List Chunk × W)
  move_first config from to [] w = (false, ([], w))
  move_first config from to (c ∷ cs) w =
      let (moved, (c', w1)) = move_chunk config from to c w in
      let (more, (cs', w2)) = move_first config from to cs w1 in
      if moved then (true, (c' ∷ cs, w1)) else (more, (c' ∷ cs', w2))

  -- The state behind a move.
  abbrev pub unloaded : Config → ℕ → Server → ℕ × Server → Balance W → Balance W
  unloaded config s from (t, to) b =
      let (moved, (cs, w)) = move_first config from to b.chunks b.world in
      let down = set b.counts s (get_or b.counts s 0 - 1) in
      record {
        world = w;
        chunks = cs;
        counts = set down t (get_or down t 0 + 1);
        moves = b.moves + 1;
      }

  -- The `while` loop for the server of number `s`; `none` where `fuel` turns are not enough.
  unfoldable pub unload : ℕ → Config → ℕ → ℕ → ℕ → Server → Balance W → Option (Balance W)
  unload zero config average remainder s from b = none
  unload (suc fuel) config average remainder s from b =
      if not (ltb (target_count average remainder s) (get_or b.counts s 0))
      then some b
      else (elim (find_underloaded average remainder 0 (live config) b.counts) [
        | none ↦ some b
        | some (t, to) ↦
            let (moved, (cs, w)) = move_first config from to b.chunks b.world in
            let rest =
              unload fuel config average remainder s from (unloaded config s from (t, to) b) in
            if moved then rest else some (record b { world = w; chunks = cs })
      ])

  -- The loop over the servers, from the number `s` on.
  unfoldable pub unload_all : ℕ → Config → ℕ → ℕ → ℕ → List Server → Balance W → Option (Balance W)
  unload_all fuel config average remainder s [] b = some b
  unload_all fuel config average remainder s (from ∷ servers) b =
      elim (unload fuel config average remainder s from b) [
        | none ↦ none
        | some b' ↦ unload_all fuel config average remainder (suc s) servers b'
      ]

  -- The manifest and the moves.
  abbrev pub balanced : FileManifest → Option (Balance W) → Option (Result (FileManifest × ℕ) × W)
  balanced m none = none
  balanced m (some b) = some (ok (put_chunks m b.chunks, b.moves), b.world)

  unfoldable pub rebalance_chunks :
      ℕ → RepairContext → FileManifest → W → Option (Result (FileManifest × ℕ) × W)
  rebalance_chunks fuel context m w = elim (ready context) [
    | none ↦ some (err invalid_argument, w)
    | some config ↦
        let servers = live config in
        let (counts, total) = count_chunks servers (chunks_of m) (replicate max_servers 0, 0) in
        if total == 0
        then some (ok (m, 0), w)
        else balanced m (
            unload_all fuel config (total / config.server_count) (total % config.server_count) 0
              servers (record { world = w; chunks = chunks_of m; counts = counts; moves = 0 }))
  ]
