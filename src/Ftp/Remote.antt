-- ===== src/Ftp/Remote.antt =====
-- What src/netchunk.c and src/repair.c use of the FTP client: the chunk and manifest functions that
-- include/ftp_client.h declares, as a record, and the bodies that src/ftp_client.c gives them.
use net_chunk.Base.{ℕ, Option, List, [], ErrorCode, success}
use net_chunk.Chunker.Types.{Chunk}
use net_chunk.Config.Types.{Server, Config}
use net_chunk.Manifest.Types.{FileManifest}

-- A `data` pointer after a call: the one from before, or another.
pub data Pointer : Type 0 where
  kept : Pointer
  replaced : Option (List ℕ) → Pointer

abbrev pub with_pointer : Chunk → Pointer → Chunk
with_pointer c kept = c
with_pointer c (replaced b) = record c { bytes = b }

-- The functions, over the type `W` of all that stands outside the process. Of the chunk, a
-- download changes `data`; of the manifest, `download_manifest` gets what the variable held.
pub record Remote (W : Type 0) : Type 0 where
  pub test_connection : Server → W → ErrorCode × W
  pub upload_chunk : Server → Chunk → W → ErrorCode × W
  pub download_chunk : Server → Chunk → W → ErrorCode × (Pointer × W)
  pub delete_chunk : Server → Chunk → W → ErrorCode × W
  pub upload_manifest : Config → FileManifest → W → ErrorCode × W
  pub download_manifest : Config → List ℕ → FileManifest → W → ErrorCode × (FileManifest × W)
  pub delete_manifest : Config → List ℕ → W → ErrorCode × W
  pub list_manifests : Config → W → ErrorCode × (List FileManifest × W)

-- The bodies in the source, which do nothing but return SUCCESS; the probe of a server is libcurl's.
abbrev pub client : {W : Type 0} → (Server → W → ErrorCode × W) → Remote W
client probe = record {
  test_connection = probe;
  upload_chunk = λ server chunk w. (success, w);
  download_chunk = λ server chunk w. (success, (kept, w));
  delete_chunk = λ server chunk w. (success, w);
  upload_manifest = λ config manifest w. (success, w);
  download_manifest = λ config remote_name manifest w. (success, (manifest, w));
  delete_manifest = λ config remote_name w. (success, w);
  list_manifests = λ config w. (success, ([], w));
}
