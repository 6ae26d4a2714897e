-- ===== src/Api/Tests.antt =====
-- Downloads from servers in memory, and the theorems about them at concrete inputs.
use net_chunk.Base.{
  ℕ, ◌≡◌, refl, arith, List, [], ◌∷◌, true, false, none, some, ok, err, take, drop, replicate,
  download_failed,
}
use net_chunk.Base.Int.{pos}
use net_chunk.Libc.Files.{Closing}
use net_chunk.Libc.Text.{same_text}
use net_chunk.Crypto.Context.{pad_buffer, output, hash}
use net_chunk.Crypto.Compress.{transform}
use net_chunk.Crypto.Hex.{hash_compare}
use net_chunk.Chunker.Types.{Location, Chunk}
use net_chunk.Chunker.Chunk.{verify_integrity}
use net_chunk.Config.Types.{Config}
use net_chunk.Config.Load.{init_defaults}
use net_chunk.Manifest.Types.{FileManifest, zero_manifest, chunks_of}
use net_chunk.Ftp.Remote.{Remote}
use net_chunk.Ftp.Shelf.{Shelf, shelf, server_named}
use net_chunk.Repair.Types.{live, first_server, find_server_by_id}
use net_chunk.Api.Types.{Context, Stats}
use net_chunk.Api.Download.{write_chunk, attempt, attempts, try_locations, fetch_chunks, download}
use net_chunk.Api.DownloadLaws.{IsFileOf, download_success}
use net_chunk.Api.Operations.{count_reachable, health_check}

abbrev config : Config
config = record init_defaults {
  replication_factor = pos 2;
  max_retry_attempts = pos 2;
  server_count = 2;
  servers = server_named (b'a' ∷ []) ∷ server_named (b'b' ∷ []) ∷ [];
}

abbrev context : Context
context = record { config = some config; ftp_context = true; initialized = true }

abbrev at_server : List ℕ → Location
at_server key = record {
  server_id = key;
  remote_path = [];
  upload_time = 0;
  verified = false;
  last_verified = 0;
}

-- The first server has data that do not verify.
abbrev chunk : Chunk
chunk = record {
  id = b'x' ∷ [];
  hash = hash (1 ∷ 2 ∷ []);
  size = 2;
  sequence_number = 0;
  created_timestamp = 0;
  locations = at_server (b'a' ∷ []) ∷ at_server (b'b' ∷ []) ∷ [];
  bytes = none;
  data_owned = false;
}

abbrev servers : Shelf
servers =
    ((b'a' ∷ []), ((b'x' ∷ []), (9 ∷ 9 ∷ []))) ∷ ((b'b' ∷ []), ((b'x' ∷ []), (1 ∷ 2 ∷ []))) ∷ []

abbrev stock : FileManifest
stock = record zero_manifest { chunk_count = 1; chunks = some (chunk ∷ []) }

abbrev r : Remote Shelf
r = shelf stock

abbrev stats : Stats
stats = record {
  bytes_processed = 2;
  chunks_processed = 1;
  servers_used = 2;
  retries_performed = 0;
}

-- `fclose` writes out all, and files can be removed.
abbrev closes : Closing
closes = record { written_out = λ bytes. bytes; removed = true }

downloads :
    download r (λ i. 100) zero_manifest true closes none context [] servers
    ≡ (ok stats, (some (1 ∷ 2 ∷ []), servers))
unfolding download fetch_chunks try_locations attempts attempt write_chunk find_server_by_id live
    first_server verify_integrity hash_compare same_text hash take output transform pad_buffer
    replicate drop
downloads = refl

download_success_example :
    (file : List ℕ) × (some (1 ∷ 2 ∷ []) ≡ some file)
    × IsFileOf (chunks_of stock) file
    × (stats.chunks_processed ≡ stock.chunk_count)
unfolding take
download_success_example =
    download_success r (λ i. 100) zero_manifest true closes none (some (1 ∷ 2 ∷ [])) context config
      [] servers servers servers stock stats refl refl (λ i. omega arith, tt) (λ bytes. refl)
      downloads

-- No server has anything.
abbrev lost_servers : Shelf
lost_servers = []

fails :
    download r (λ i. 100) zero_manifest true closes (some (7 ∷ [])) context [] lost_servers
    ≡ (err download_failed, (none, lost_servers))
unfolding download fetch_chunks try_locations attempts attempt write_chunk find_server_by_id live
    first_server verify_integrity hash_compare same_text hash take output transform pad_buffer
    replicate drop
fails = refl

health : (health_check r context servers).0 ≡ ok (2, 2)
unfolding health_check count_reachable live take
health = refl
