-- ===== src/Repair/Tests.antt =====
-- Repairs over servers in memory, and the theorems about them at concrete inputs.
use mathlib.Core.Path.{subst}
use net_chunk.Base.{
  ℕ, ◌+◌, ◌<◌, ◌≡◌, ◌↔◌, refl, sym, ap, get_or, arith, List, [], ◌∷◌, false, none, some, ok, length,
  take, drop, replicate, success, ftp, if◌then◌else◌,
}
use net_chunk.Base.Int.{pos, ◌-ℤ◌, ◌≤ℤ◌}
use net_chunk.Libc.Text.{same_text, same_text_refl}
use net_chunk.Crypto.Context.{pad_buffer, output, hash}
use net_chunk.Crypto.Compress.{transform}
use net_chunk.Crypto.Hex.{hash_compare}
use net_chunk.Chunker.Types.{Location, Chunk}
use net_chunk.Chunker.Chunk.{verify_integrity}
use net_chunk.Chunker.Table.{IsTable}
use net_chunk.Config.Types.{Server, Config}
use net_chunk.Config.Load.{init_defaults}
use net_chunk.Manifest.Types.{FileManifest, zero_manifest}
use net_chunk.Ftp.Remote.{Remote, replaced}
use net_chunk.Ftp.Shelf.{Shelf, served_stays, shelf, server_named, look_up}
use net_chunk.Repair.Types.{
  RepairContext, verify_only, auto, RepairStats, healthy, critical, lost, repair_init, live,
  first_server, find_server_by_id, zero_stats,
}
use net_chunk.Repair.Health.{
  health_of, check_replica, count_healthy, check_chunk_health, settle_replica, keep_valid,
  cleanup_chunk,
}
use net_chunk.Repair.HealthLaws.{Answers, AreGoodOnes, cleanup_chunk-check_chunk_health}
use net_chunk.Repair.Replicate.{
  count_replica, count_usage, choose_server, select_server_for_replica, find_data, note_replica,
  add_replicas, repair_chunk,
}
use net_chunk.Repair.ReplicateLaws.{IsExtended, repair_chunk-IsExtended, repair_chunk-IsTable}
use net_chunk.Repair.File.{restore, tend_chunk, tend_chunks, repair_file}
use net_chunk.Repair.FileLaws.{classed, IsQuietResult, repair_file_counts, repair_file_verify_only}

abbrev config : Config
config = record init_defaults {
  replication_factor = pos 2;
  server_count = 3;
  servers = server_named (b'a' ∷ []) ∷ server_named (b'b' ∷ []) ∷ server_named (b'c' ∷ []) ∷ [];
}

abbrev context : RepairContext
context = repair_init config

abbrev at_server : List ℕ → Location
at_server key = record {
  server_id = key;
  remote_path = [];
  upload_time = 0;
  verified = false;
  last_verified = 0;
}

-- One replica that is there, and one that the server `b` has lost.
abbrev chunk : Chunk
chunk = record {
  id = b'x' ∷ [];
  hash = hash (1 ∷ 2 ∷ []);
  size = 2;
  sequence_number = 0;
  created_timestamp = 0;
  locations = at_server (b'a' ∷ []) ∷ at_server (b'b' ∷ []) ∷ [];
  bytes = none;
  data_owned = false;
}

abbrev servers : Shelf
servers = ((b'a' ∷ []), ((b'x' ∷ []), (1 ∷ 2 ∷ []))) ∷ []

abbrev stock : FileManifest
stock = record zero_manifest { chunk_count = 1; chunks = some (chunk ∷ []) }

abbrev r : Remote Shelf
r = shelf stock

checks : (check_chunk_health r context chunk servers).0 ≡ ok (critical, 1)
unfolding check_chunk_health count_healthy check_replica find_server_by_id live first_server
    verify_integrity hash_compare same_text hash take output transform pad_buffer replicate drop
    health_of
checks = refl

abbrev cleaned : Chunk
cleaned = record chunk { locations = at_server (b'a' ∷ []) ∷ [] }

cleans : (cleanup_chunk r context chunk servers).0 ≡ ok (cleaned, 1)
unfolding cleanup_chunk keep_valid settle_replica find_server_by_id live first_server
    verify_integrity hash_compare same_text hash take output transform pad_buffer replicate drop
cleans = refl

repairs :
    (repair_chunk r (λ w. 7) (at_server []) context cleaned (pos 2) servers).0
    ≡ ok (
      record cleaned {
        locations = at_server (b'a' ∷ []) ∷ record (at_server (b'b' ∷ [])) { upload_time = 7 } ∷ [];
      },
      1,
    )
unfolding repair_chunk find_data add_replicas note_replica select_server_for_replica choose_server
    count_usage count_replica find_server_by_id live first_server verify_integrity hash_compare
    same_text hash take output transform pad_buffer replicate drop ◌-ℤ◌
repairs = refl

abbrev repaired : Chunk
repaired = record cleaned {
  locations = at_server (b'a' ∷ []) ∷ record (at_server (b'b' ∷ [])) { upload_time = 7 } ∷ [];
}

repair_chunk-IsExtended_example : IsExtended (pos 2) cleaned (repaired, 1)
repair_chunk-IsExtended_example =
    repair_chunk-IsExtended r (λ w. 7) (at_server []) context cleaned (pos 2) servers (repaired, 1)
      repairs

first_code : {a b : ℕ} → ◌≡◌ {A = List ℕ} (a ∷ []) (b ∷ []) → a ≡ b
first_code e = ap (λ l. get_or l 0 0) e

repair_chunk-IsTable_example : IsTable repaired.locations
unfolding live take
repair_chunk-IsTable_example =
    repair_chunk-IsTable r (λ w. 7) (at_server []) context config cleaned (pos 2) servers
      (repaired, 1) refl
      (
        (λ e. omega (arith, first_code e), (λ e. omega (arith, first_code e), tt)),
        ((λ e. omega (arith, first_code e), tt), (tt, tt)),
      )
      (omega arith, (omega arith, (omega arith, tt)))
      (record { room = omega arith; distinct = (tt, tt) }) repairs

-- Only the server `a` answers, with the same data each time.
abbrev a_answers : Remote Shelf
a_answers = record r {
  download_chunk = λ server c w.
      (if same_text server.id (b'a' ∷ []) then success else ftp, (replaced (some (1 ∷ 2 ∷ [])), w));
}

abbrev answers : Answers
answers server =
    (if same_text server.id (b'a' ∷ []) then success else ftp, replaced (some (1 ∷ 2 ∷ [])))

checks_a : (check_chunk_health a_answers context chunk servers).0 ≡ ok (critical, 1)
unfolding check_chunk_health count_healthy check_replica find_server_by_id live first_server
    verify_integrity hash_compare same_text hash take output transform pad_buffer replicate drop
    health_of
checks_a = refl

cleans_a : (cleanup_chunk a_answers context chunk servers).0 ≡ ok (cleaned, 1)
unfolding cleanup_chunk keep_valid settle_replica find_server_by_id live first_server
    verify_integrity hash_compare same_text hash take output transform pad_buffer replicate drop
cleans_a = refl

cleanup_chunk-check_chunk_health_example :
    AreGoodOnes answers config chunk chunk.locations cleaned.locations
    × (length cleaned.locations ≡ 1)
    × (1 + 1 ≡ length chunk.locations)
    × ((critical ≡ lost) ↔ (length cleaned.locations ≡ 0))
    × ((critical ≡ critical) ↔ (length cleaned.locations ≡ 1))
    × ((critical ≡ healthy) ↔ (
        (1 < length cleaned.locations)
        × (config.replication_factor ≤ℤ pos (length cleaned.locations))))
cleanup_chunk-check_chunk_health_example =
    cleanup_chunk-check_chunk_health a_answers answers config chunk (λ server w. (refl, refl))
      context servers servers critical 1 1 cleaned refl checks_a cleans_a

abbrev tended : RepairStats
tended = record zero_stats {
  chunks_verified = 1;
  chunks_critical = 1;
  chunks_repaired = 1;
  replicas_added = 1;
  replicas_removed = 1;
}

repairs_file :
    (repair_file r (λ w. 7) (at_server []) zero_manifest context [] auto servers).0 ≡ ok tended
unfolding repair_file tend_chunks tend_chunk restore check_chunk_health count_healthy health_of
    check_replica cleanup_chunk keep_valid settle_replica repair_chunk find_data add_replicas
    note_replica select_server_for_replica choose_server count_usage count_replica find_server_by_id
    live first_server verify_integrity hash_compare same_text hash take output transform pad_buffer
    replicate drop ◌-ℤ◌
repairs_file = refl

repair_file_counts_example :
    (classed tended ≡ tended.chunks_verified) × (tended.chunks_verified ≡ 1)
repair_file_counts_example =
    repair_file_counts r (λ w. 7) (at_server []) zero_manifest context config [] auto servers
      servers stock tended refl refl (omega arith) (omega arith) repairs_file

repair_file_verify_only_example :
    (look_up
        (b'a' ∷ [])
        (b'x' ∷ [])
        (repair_file r (λ w. 7) (at_server []) zero_manifest context [] verify_only servers).1
      ≡ some (1 ∷ 2 ∷ []))
    × IsQuietResult
        (repair_file r (λ w. 7) (at_server []) zero_manifest context [] verify_only servers).0
repair_file_verify_only_example =
    repair_file_verify_only r (λ w. 7) (at_server [])
      (λ w. look_up (b'a' ∷ []) (b'x' ∷ []) w ≡ some (1 ∷ 2 ∷ [])) download_keeps zero_manifest
      context [] servers (λ c w i. i) found
  where
    found : look_up (b'a' ∷ []) (b'x' ∷ []) servers ≡ some (1 ∷ 2 ∷ [])
    found = rw (same_text_refl (b'a' ∷ []), same_text_refl (b'x' ∷ [])) refl

    download_keeps :
        (server : Server) (c : Chunk) (w : Shelf)
        → look_up (b'a' ∷ []) (b'x' ∷ []) w ≡ some (1 ∷ 2 ∷ [])
        → look_up (b'a' ∷ []) (b'x' ∷ []) (r.download_chunk server c w).1.1 ≡ some (1 ∷ 2 ∷ [])
    download_keeps server c w i =
        subst (λ v. look_up (b'a' ∷ []) (b'x' ∷ []) v ≡ some (1 ∷ 2 ∷ []))
          (sym (served_stays w (look_up server.id c.id w))) i
