-- ===== src/Chunker/Tests.antt =====
-- Runs of the chunker, and the theorems about it at concrete inputs.
use net_chunk.Base.{
  ℕ, suc, ◌+◌, ◌≡◌, refl, arith, List, [], ◌∷◌, true, false, none, some, ok, success,
  invalid_argument, file_not_found, length, take, if◌then◌else◌, ◌||◌, ltb, is_some,
}
use net_chunk.Base.Int.{pos}
use net_chunk.Libc.Text.{same_text}
use net_chunk.Libc.Decimal.{decimal}
use net_chunk.Crypto.Context.{hash, hash_file}
use net_chunk.Chunker.Types.{Chunk, max_chunk_locations}
use net_chunk.Chunker.Chunk.{chunk_init, hex_word, generate_chunk_id}
use net_chunk.Chunker.ChunkLaws.{generate_chunk_id_injective}
use net_chunk.Chunker.Count.{calculate_chunk_count}
use net_chunk.Chunker.Locations.{
  update_server, remove_server, stored_path, add_location, remove_location, find_location,
}
use net_chunk.Chunker.Table.{Holds, IsFresh, IsTable}
use net_chunk.Chunker.LocationLaws.{
  find_location-add_location, add_location-IsTable, add_location_outcome,
  find_location-remove_location,
}
use net_chunk.Chunker.Stream
use net_chunk.Chunker.Stream.{Env, InitWorld, chunker_init}
use net_chunk.Chunker.Cut.{AreCut, contents}
use net_chunk.Chunker.File.{read_chunks}
use net_chunk.Chunker.Whole.{read_chunks_whole}

abbrev pub file : List ℕ
file = 1 ∷ 2 ∷ 3 ∷ 4 ∷ 5 ∷ []

abbrev pub world : InitWorld
world = record {
  opened = some (record { rest = file; broken = false });
  stat_size = some 5;
  hash_reads = some (record { pieces = file ∷ []; failed = false });
  allocated = true;
  now = 1000;
}

abbrev pub env : ℕ → Env
env n = record { allocated = true; random = 1 ∷ 2 ∷ 3 ∷ 4 ∷ 5 ∷ 6 ∷ 7 ∷ 8 ∷ []; now = 1000 + n }

-- What `netchunk_chunker_init` answers for the file "/tmp/f".
abbrev pub context : Stream.Context
context = record {
  input_file = some (record { rest = file; broken = false });
  chunk_size = 2;
  current_chunk_number = 0;
  total_chunks = 3;
  total_file_size = 5;
  bytes_processed = 0;
  chunk_buffer = true;
  chunk_buffer_size = 0;
  chunk_buffer_capacity = 2;
  file_info = record {
    filename = b'f' ∷ [];
    total_size = 5;
    created_timestamp = 1000;
    last_accessed = 1000;
    chunk_count = 3;
    file_hash = hash file;
    chunk_size = 2;
  };
  start_time = 1000;
  finished = false;
}

pub starts : chunker_init (b'/' ∷ b't' ∷ b'm' ∷ b'p' ∷ b'/' ∷ b'f' ∷ []) 2 world ≡ ok context
unfolding chunker_init hash_file hash calculate_chunk_count take
starts = refl

read_chunks_whole_example :
    let (chunks, code, last) = read_chunks 4 env context in
    AreCut 2 0 file chunks
    × (contents chunks ≡ file)
    × (length chunks ≡ 3)
    × (code ≡ file_not_found)
read_chunks_whole_example =
    read_chunks_whole (b'/' ∷ b't' ∷ b'm' ∷ b'p' ∷ b'/' ∷ b'f' ∷ []) 2 world file context refl refl
      (omega arith) starts env (λ i. refl) (omega arith) (omega arith)

-- The servers 3 and 12, added in this order.
abbrev one_place : Chunk
one_place = (add_location (chunk_init 0 0 0) (pos 3) (b'a' ∷ []) 7).1

abbrev two_places : Chunk
two_places = (add_location one_place (pos 12) (b'b' ∷ []) 9).1

adds_first : add_location (chunk_init 0 0 0) (pos 3) (b'a' ∷ []) 7 ≡ (success, one_place)
unfolding add_location update_server chunk_init
adds_first = refl

adds_second : add_location one_place (pos 12) (b'b' ∷ []) 9 ≡ (success, two_places)
unfolding add_location update_server chunk_init same_text decimal
adds_second = refl

empty-IsTable : IsTable (chunk_init 0 0 0).locations
unfolding chunk_init
empty-IsTable = record { room = omega arith; distinct = tt }

add_location-IsTable_example : IsTable one_place.locations
add_location-IsTable_example =
    add_location-IsTable (chunk_init 0 0 0) one_place 3 (b'a' ∷ []) 7 adds_first empty-IsTable

two_places-IsTable : IsTable two_places.locations
two_places-IsTable =
    add_location-IsTable one_place two_places 12 (b'b' ∷ []) 9 adds_second
      (add_location-IsTable (chunk_init 0 0 0) one_place 3 (b'a' ∷ []) 7 adds_first empty-IsTable)

find_location-add_location_example :
    Holds (IsFresh (decimal 12) (stored_path (b'b' ∷ [])) 9) (find_location two_places (pos 12))
    × (find_location two_places (pos 3) ≡ find_location one_place (pos 3))
find_location-add_location_example =
    find_location-add_location one_place two_places 12 (b'b' ∷ []) 9 adds_second 3

add_location_outcome_example : add_location one_place (pos 12) (b'b' ∷ []) 9 ≡ (
    if is_some (find_location one_place (pos 12))
      || ltb (length one_place.locations) max_chunk_locations
    then (success, (add_location one_place (pos 12) (b'b' ∷ []) 9).1)
    else (invalid_argument, one_place))
add_location_outcome_example = add_location_outcome one_place 12 (b'b' ∷ []) 9

removes : remove_location two_places (pos 3) ≡ (success, (remove_location two_places (pos 3)).1)
unfolding add_location update_server remove_location remove_server chunk_init same_text decimal
removes = refl

find_location-remove_location_example :
    let less = (remove_location two_places (pos 3)).1 in
    (find_location less (pos 3) ≡ none)
    × (suc (length less.locations) ≡ length two_places.locations)
    × IsTable less.locations
find_location-remove_location_example =
    find_location-remove_location two_places (remove_location two_places (pos 3)).1 3
      two_places-IsTable removes 3

-- Random bytes that differ from the third on give the same identifier.
same_id :
    generate_chunk_id 5 (7 ∷ 8 ∷ []) (1 ∷ 2 ∷ 3 ∷ 4 ∷ [])
    ≡ generate_chunk_id 5 (7 ∷ 8 ∷ []) (1 ∷ 2 ∷ 30 ∷ 40 ∷ [])
unfolding generate_chunk_id hex_word take
same_id = refl

generate_chunk_id_injective_example : ◌≡◌ {A = ℕ} 5 5
generate_chunk_id_injective_example =
    generate_chunk_id_injective 5 5 (7 ∷ 8 ∷ []) (7 ∷ 8 ∷ []) (1 ∷ 2 ∷ 3 ∷ 4 ∷ [])
      (1 ∷ 2 ∷ 30 ∷ 40 ∷ []) (omega arith) (omega arith) same_id
