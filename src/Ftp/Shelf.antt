-- ===== src/Ftp/Shelf.antt =====
-- An FTP client over servers held in memory, for the tests: each entry is a server's id, a chunk's
-- id and the data; one manifest stands for every name.
use net_chunk.Base.{
  ℕ, ◌≡◌, refl, Bool, true, false, ◌&&◌, Option, none, some, List, [], ◌∷◌, ◌++◌, if◌then◌else◌,
  ErrorCode, success, ftp,
}
use net_chunk.Libc.Text.{same_text}
use net_chunk.Config.Types.{Server, unknown}
use net_chunk.Base.Int.{pos}
use net_chunk.Manifest.Types.{FileManifest}
use net_chunk.Ftp.Remote.{Remote, Pointer, kept, replaced}

abbrev pub Shelf : Type 0
Shelf = List (List ℕ × (List ℕ × List ℕ))

abbrev is_entry : List ℕ → List ℕ → List ℕ × (List ℕ × List ℕ) → Bool
is_entry server chunk (s, (c, bytes)) = same_text s server && same_text c chunk

abbrev pub look_up : List ℕ → List ℕ → Shelf → Option (List ℕ)
look_up server chunk [] = none
look_up server chunk (e ∷ w) =
    if is_entry server chunk e then some e.1.1 else look_up server chunk w

abbrev pub take_out : List ℕ → List ℕ → Shelf → Shelf
take_out server chunk [] = []
take_out server chunk (e ∷ w) = if is_entry server chunk e then w else e ∷ take_out server chunk w

abbrev bytes_of : Option (List ℕ) → List ℕ
bytes_of none = []
bytes_of (some bytes) = bytes

abbrev served : Shelf → Option (List ℕ) → ErrorCode × (Pointer × Shelf)
served w none = (ftp, (kept, w))
served w (some bytes) = (success, (replaced (some bytes), w))

pub served_stays : (w : Shelf) (o : Option (List ℕ)) → (served w o).1.1 ≡ w
served_stays w none = refl
served_stays w (some bytes) = refl

abbrev pub shelf : FileManifest → Remote Shelf
shelf stock = record {
  test_connection = λ server w. (success, w);
  upload_chunk = λ server c w. (success, w ++ ((server.id, (c.id, bytes_of c.bytes)) ∷ []));
  download_chunk = λ server c w. served w (look_up server.id c.id w);
  delete_chunk = λ server c w. (success, take_out server.id c.id w);
  upload_manifest = λ config m w. (success, w);
  download_manifest = λ config name unset w. (success, (stock, w));
  delete_manifest = λ config name w. (success, w);
  list_manifests = λ config w. (success, (stock ∷ [], w));
}

abbrev pub server_named : List ℕ → Server
server_named key = record {
  id = key;
  host = key;
  port = 21;
  username = key;
  password = key;
  base_path = key;
  use_ssl = false;
  passive_mode = true;
  priority = pos 0;
  status = unknown;
  last_health_check = 0;
  bytes_available = 0;
  bytes_used = 0;
}
