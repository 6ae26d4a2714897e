-- ===== src/Api/UploadTests.antt =====
-- An upload to servers in memory, and the theorem about it at a concrete input.
use net_chunk.Base.{ℕ, ◌≡◌, arith, List, [], ◌∷◌, true, false, some, ErrorCode, failed, err}
use net_chunk.Base.Int.{pos}
use net_chunk.Chunker.Stream.{Env, InitWorld}
use net_chunk.Chunker.Types.{Location}
use net_chunk.Config.Types.{Config}
use net_chunk.Config.Load.{init_defaults}
use net_chunk.Manifest.Types.{zero_manifest}
use net_chunk.Ftp.Shelf.{Shelf, shelf, server_named}
use net_chunk.Api.Types.{Context}
use net_chunk.Api.Upload.{upload}
use net_chunk.Api.UploadLaws.{upload_fails}

abbrev file : List ℕ
file = 1 ∷ 2 ∷ 3 ∷ 4 ∷ 5 ∷ []

abbrev world : InitWorld
world = record {
  opened = some (record { rest = file; broken = false });
  stat_size = some 5;
  hash_reads = some (record { pieces = file ∷ []; failed = false });
  allocated = true;
  now = 1000;
}

abbrev env : ℕ → Env
env n = record { allocated = true; random = 1 ∷ 2 ∷ 3 ∷ 4 ∷ 5 ∷ 6 ∷ 7 ∷ 8 ∷ []; now = n }

abbrev config : Config
config = record init_defaults {
  chunk_size = 2;
  replication_factor = pos 1;
  max_retry_attempts = pos 2;
  server_count = 1;
  servers = server_named (b'a' ∷ []) ∷ [];
}

abbrev context : Context
context = record { config = some config; ftp_context = true; initialized = true }

abbrev garbage : Location
garbage = record {
  server_id = [];
  remote_path = [];
  upload_time = 0;
  verified = false;
  last_verified = 0;
}

upload_fails_example :
    (e : ErrorCode) × (last : Shelf) × (upload
        (shelf zero_manifest)
        (λ w. 7)
        garbage
        6
        env
        (λ i. (true, true))
        (some 5)
        world
        (λ i. 7)
        context
        (b'f' ∷ [])
        (b'f' ∷ [])
        []
      ≡ some (err e, last))
    × (failed e ≡ true)
upload_fails_example =
    upload_fails (shelf zero_manifest) (λ w. 7) garbage 6 env (λ i. (true, true)) (some 5) world
      (λ i. 7) context (b'f' ∷ []) (b'f' ∷ []) [] (omega arith)
