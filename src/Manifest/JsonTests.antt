-- ===== src/Manifest/JsonTests.antt =====
-- The JSON of manifests at concrete inputs, over a small JSON library.
use net_chunk.Base.{true, none, some, [], ◌∷◌, ◌≡◌, refl, arith, take, replicate, success, ok}
use net_chunk.Base.Int.{pos}
use net_chunk.Libc.Text.{codes}
use net_chunk.Chunker.Types.{Location, Chunk}
use net_chunk.Manifest.Types.{FileManifest, zero_manifest}
use net_chunk.Manifest.Json.{Grants, to_json, from_json}
use net_chunk.Manifest.JsonLaws.{IsHash}
use net_chunk.Manifest.ChunkJson.{IsStorableChunk}
use net_chunk.Manifest.Files.{
  Files, Manager, Writing, save_to_file, load_from_file, build_path, write_file_atomically,
}
use net_chunk.Manifest.RoundTrip.{IsStorable, reloaded}
use net_chunk.Manifest.SaveLoad.{load_from_file-save_to_file}
use net_chunk.Manifest.TreeJson.{tree_json, tree_laws}

abbrev zeros : IsHash (replicate 32 0)
unfolding replicate
zeros = omega arith

abbrev location : Location
location = record {
  server_id = codes "backup";
  remote_path = codes "/chunks/chunk_0";
  upload_time = 1700000000;
  verified = true;
  last_verified = 1700000100;
}

abbrev chunk : Chunk
chunk = record {
  id = codes "0000000065538000";
  hash = replicate 32 0;
  size = 3;
  sequence_number = 0;
  created_timestamp = 1700000000;
  locations = location ∷ [];
  bytes = some (1 ∷ 2 ∷ 3 ∷ []);
  data_owned = true;
}

abbrev manifest : FileManifest
manifest = record zero_manifest {
  original_filename = codes "a.bin";
  manifest_id = codes "manifest_a.bin_1700000000";
  version = codes "1.0";
  total_size = 3;
  original_size = 3;
  chunk_size = 1024;
  chunk_count = 1;
  created_timestamp = 1700000000;
  chunks = some (chunk ∷ []);
  chunks_owned = true;
  replication_factor = pos 3;
  min_replicas_required = pos 1;
  creator_info = codes "NetChunk v1.0";
}

abbrev granted : Grants
granted = record {
  object = true;
  array = true;
  chunk = λ i. record { object = true; array = true; location = λ j. true };
  printed = true;
}

chunk-IsStorableChunk : IsStorableChunk chunk
chunk-IsStorableChunk = record {
  id_fits = omega arith;
  is_hash = zeros;
  size_small = omega arith;
  sequence_small = omega arith;
  created_small = omega arith;
  few = omega arith;
  locations_fit = (
    record {
      server_fits = omega arith;
      path_fits = omega arith;
      uploaded = omega arith;
      last = omega arith;
    },
    tt,
  );
}

manifest-IsStorable : IsStorable manifest
unfolding take
manifest-IsStorable = record {
  version_fits = omega arith;
  manifest_id_fits = omega arith;
  filename_fits = omega arith;
  creator_fits = omega arith;
  comment_fits = omega arith;
  is_hash = zeros;
  total_small = omega arith;
  chunk_size_small = omega arith;
  count_small = omega arith;
  created_small = omega arith;
  accessed_small = omega arith;
  modified_small = omega arith;
  verified_small = omega arith;
  replication_exact = omega arith;
  min_exact = omega arith;
  chunks_fit = (chunk-IsStorableChunk, tt);
  chunks_counted = omega arith;
}

abbrev manager : Manager
manager = record { manifest_directory = codes "/m"; auto_backup = true; max_backups = 5 }

abbrev writing : Writing
writing = record { opened = true; printed = true; partial = 0; flushed = true; renamed = true }

abbrev no_files : Files
no_files path = none

saved :
    (save_to_file
      (to_json tree_json granted)
      writing
      writing
      true
      true
      1700000000
      manager
      manifest
      (codes "a.bin")
      no_files).0
    ≡ success
unfolding save_to_file build_path write_file_atomically to_json
saved = refl

load_from_file-save_to_file_example :
    load_from_file
      (from_json tree_json true)
      true
      true
      manager
      (codes "a.bin")
      (save_to_file
        (to_json tree_json granted)
        writing
        writing
        true
        true
        1700000000
        manager
        manifest
        (codes "a.bin")
        no_files).1.last
    ≡ ok (reloaded manifest)
load_from_file-save_to_file_example =
    load_from_file-save_to_file tree_json tree_laws granted writing writing true true 1700000000
      manager manifest (codes "a.bin") no_files (λ i. (refl, refl, λ j. refl)) manifest-IsStorable
      (omega arith) saved
