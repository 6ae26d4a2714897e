-- ===== src/Repair/Replicate.antt =====
-- The new replicas of one chunk in src/repair.c: `select_server_for_replica` and
-- `netchunk_repair_chunk`, over any FTP client.
use net_chunk.Base.{
  ℕ, zero, suc, Bool, true, false, not, ◌&&◌, Option, none, some, List, [], ◌∷◌, ◌++◌, ltb, ◌==◌,
  if◌then◌else◌, length, take, replicate, ErrorCode, invalid_argument, chunk_integrity, failed,
  Result, ok, err,
}
use net_chunk.Base.Int.{ℤ, pos, pos_part, ◌-ℤ◌}
use net_chunk.Libc.Text.{same_text}
use net_chunk.Chunker.Types.{Location, Chunk, max_chunk_locations}
use net_chunk.Chunker.Chunk.{verify_integrity}
use net_chunk.Config.Types.{Server, Config, max_servers}
use net_chunk.Ftp.Remote.{Remote, Pointer, kept, replaced, with_pointer}
use net_chunk.Repair.Types.{RepairContext, ready, live, find_server_by_id}

-- One more replica for the first server of this id.
unfoldable pub count_replica : List ℕ → List Server → List ℕ → List ℕ
count_replica key [] us = us
count_replica key (s ∷ ss) [] = []
count_replica key (s ∷ ss) (u ∷ us) =
    if same_text key s.id then suc u ∷ us else u ∷ count_replica key ss us

-- The loop over the replicas, from the counts so far.
unfoldable pub count_usage : List Server → List Location → List ℕ → List ℕ
count_usage servers [] us = us
count_usage servers (l ∷ ls) us = count_usage servers ls (count_replica l.server_id servers us)

-- `strncpy` into the id of a location, of 64 characters.
abbrev pub stored_id : List ℕ → List ℕ
stored_id key = take 63 key

-- A location on the stack, of which two fields are set.
abbrev pub placed : Location → Server → ℕ → Location
placed garbage server now = record garbage { server_id = stored_id server.id; upload_time = now }

-- How often the loop for new replicas runs.
abbrev pub replicas_needed : ℤ → Chunk → ℕ
replicas_needed target chunk = pos_part (target -ℤ pos (length chunk.locations))

-- The downloads go into a copy of the chunk, whose `data` pointer is the chunk's or another.
abbrev pub then_pointer : Pointer → Pointer → Pointer
then_pointer p kept = p
then_pointer p (replaced b) = replaced b

-- Data of the copy's own are freed.
abbrev pub freed : Pointer → Pointer
freed kept = kept
freed (replaced b) = replaced none

module _ {W : Type 0} (r : Remote W) where
  -- The loop over the servers; `best` is the server chosen so far, `least` its count.
  unfoldable pub choose_server : List Server → List ℕ → ℕ → Option Server → W → Option Server × W
  choose_server [] us least best w = (best, w)
  choose_server (s ∷ ss) [] least best w = (best, w)
  choose_server (s ∷ ss) (u ∷ us) least best w =
      if (u == 0) && ltb u least
      then (let (code, w') = r.test_connection s w in
          let least' = if failed code then least else u in
          let best' = if failed code then best else some s in choose_server ss us least' best' w')
      else choose_server ss us least best w

  -- `least` starts as INT_MAX.
  unfoldable pub select_server_for_replica : Config → Chunk → W → Option Server × W
  select_server_for_replica config chunk w =
      let servers = live config in
      choose_server servers (count_usage servers chunk.locations (replicate max_servers 0))
        2147483647 none w

  -- The loop for data that verify: the pointer of the copy, and whether they were found.
  unfoldable pub find_data : Config → Chunk → Pointer → List Location → W → (Bool × Pointer) × W
  find_data config chunk p [] w = ((false, p), w)
  find_data config chunk p (l ∷ ls) w = elim (find_server_by_id config l.server_id) [
    | none ↦ find_data config chunk p ls w
    | some server ↦
        let (code, (q, w')) = r.download_chunk server (with_pointer chunk p) w in
        let p' = then_pointer p q in
        let valid = not (failed code) && not (failed (verify_integrity (with_pointer chunk p'))) in
        elim valid [
          | true ↦ ((true, p'), w')
          | false ↦ find_data config chunk (if failed code then p' else freed p') ls w'
        ]
  ]

  module _ (clock : W → ℕ) (garbage : Location) where
    -- The part behind an upload: a full table gets no entry.
    unfoldable pub note_replica : Server → W → ErrorCode → Chunk × ℕ → Chunk × ℕ
    note_replica server w code (chunk, added) =
        if failed code
        then (chunk, added)
        else if ltb (length chunk.locations) max_chunk_locations
        then (
          record chunk { locations = chunk.locations ++ (placed garbage server (clock w) ∷ []) },
          suc added,
        )
        else (chunk, added)

    -- The loop for new replicas, which runs at most `n` times more. What is uploaded is the copy,
    -- `working`, which keeps the locations from before the loop.
    unfoldable pub add_replicas : ℕ → Config → Chunk → Chunk × ℕ → W → (Chunk × ℕ) × W
    add_replicas zero config working state w = (state, w)
    add_replicas (suc n) config working state w =
        let (target, w1) = select_server_for_replica config state.0 w in
        elim target [
          | none ↦ (state, w1)
          | some server ↦
              let (code, w2) = r.upload_chunk server working w1 in
              add_replicas n config working (note_replica server w2 code state) w2
        ]

    -- The chunk and the number of replicas added.
    unfoldable pub repair_chunk : RepairContext → Chunk → ℤ → W → Result (Chunk × ℕ) × W
    repair_chunk context chunk target w = elim (ready context) [
      | none ↦ (err invalid_argument, w)
      | some config ↦
          let ((found, p), w1) = find_data config chunk kept chunk.locations w in
          if not found
          then (err chunk_integrity, w1)
          else let (state, w2) =
              add_replicas (replicas_needed target chunk) config (with_pointer chunk p) (chunk, 0)
                w1 in
            (ok state, w2)
    ]
