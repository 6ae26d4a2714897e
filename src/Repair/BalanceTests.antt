-- ===== src/Repair/BalanceTests.antt =====
-- The rebalance and the health of the system over servers in memory.
use net_chunk.Base.{
  ℕ, ◌≡◌, refl, List, [], ◌∷◌, none, some, true, false, Option, ok, err, map, take, drop, replicate,
  Result,
}
use net_chunk.Base.Int.{pos}
use net_chunk.Libc.Text.{same_text}
use net_chunk.Chunker.Types.{Location, Chunk}
use net_chunk.Config.Types.{Config}
use net_chunk.Config.Load.{init_defaults}
use net_chunk.Manifest.Types.{FileManifest, zero_manifest, chunks_of}
use net_chunk.Ftp.Shelf.{Shelf, shelf, server_named}
use net_chunk.Repair.Types.{repair_init, live, first_server}
use net_chunk.Repair.Replicate.{count_replica}
use net_chunk.Repair.Rebalance.{
  count_locations, count_chunks, find_underloaded, last_index, is_on_server, remove_at, relocate,
  move_chunk, move_first, unload, unload_all, rebalance_chunks,
}

abbrev config : Config
config = record init_defaults {
  replication_factor = pos 1;
  server_count = 2;
  servers = server_named (b'a' ∷ []) ∷ server_named (b'b' ∷ []) ∷ [];
}

abbrev at_server : ℕ → Location
at_server key = record {
  server_id = key ∷ [];
  remote_path = [];
  upload_time = 0;
  verified = false;
  last_verified = 0;
}

abbrev chunk_on_a : ℕ → Chunk
chunk_on_a key = record {
  id = key ∷ [];
  hash = [];
  size = 1;
  sequence_number = 0;
  created_timestamp = 0;
  locations = at_server b'a' ∷ [];
  bytes = some (key ∷ []);
  data_owned = true;
}

-- Two chunks on one server.
abbrev manifest : FileManifest
manifest = record zero_manifest {
  chunk_count = 2;
  chunks = some (chunk_on_a b'x' ∷ chunk_on_a b'y' ∷ []);
}

abbrev servers : Shelf
servers = (b'a' ∷ [], (b'x' ∷ [], b'x' ∷ [])) ∷ (b'a' ∷ [], (b'y' ∷ [], b'y' ∷ [])) ∷ []

abbrev moved : Option (Result (FileManifest × ℕ) × Shelf) → Option (List (List Location) × Shelf)
moved none = none
moved (some (err e, w)) = none
moved (some (ok (m, n), w)) = some (map (λ c. c.locations) (chunks_of m), w)

-- One of them is moved to the other server.
one_moved :
    moved (
      rebalance_chunks
        (shelf manifest)
        (λ w. 0)
        (at_server 0)
        4
        (repair_init config)
        manifest
        servers)
    ≡ some (
      (at_server b'b' ∷ []) ∷ (at_server b'a' ∷ []) ∷ [],
      (b'a' ∷ [], (b'y' ∷ [], b'y' ∷ [])) ∷ (b'b' ∷ [], (b'x' ∷ [], b'x' ∷ [])) ∷ [],
    )
unfolding rebalance_chunks count_chunks count_locations count_replica unload_all unload
    find_underloaded move_first move_chunk relocate last_index is_on_server remove_at live
    first_server same_text take drop replicate
one_moved = refl
