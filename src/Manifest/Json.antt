-- ===== src/Manifest/Json.antt =====
-- `netchunk_file_manifest_to_json`, `_from_json`, `netchunk_chunk_to_json` and `_from_json` of
-- src/manifest.c over cJSON. Numbers outside the range of the field they are read into, where C
-- leaves the conversion undefined, are cut off at 0 or reduced to the width.
use net_chunk.Base.{
  ℕ, suc, ◌-◌, Bool, true, false, not, Option, none, some, List, [], ◌∷◌, map, if◌then◌else◌,
  length, take, replicate, u32, out_of_memory, manifest_corrupt, Result, ok, err,
}
use net_chunk.Base.Int.{ℤ, pos, pos_part}
use net_chunk.Libc.Text.{codes}
use net_chunk.Crypto.Hex.{hex_bytes, hex_string_to_hash}
use net_chunk.Chunker.Types.{Location, Chunk, max_chunk_locations, max_path_len}
use net_chunk.Manifest.Types.{FileManifest, zero_manifest, chunks_of}
use net_chunk.Manifest.Cjson.{Cjson}

-- What the calls that create an item answer, for a chunk and for a manifest. The calls that add a
-- text or a number are taken to get their memory.
pub record ChunkGrants : Type 0 where
  pub object : Bool
  pub array : Bool
  pub location : ℕ → Bool

pub record Grants : Type 0 where
  pub object : Bool
  pub array : Bool
  pub chunk : ℕ → ChunkGrants
  pub printed : Bool

module _ (c : Cjson) where
  open c use {
    Item, double, truncated, object, array, string, number, bool, add, push, get, string_value,
    number_value, bool_value, elements, print, parse,
  }

  -- A run of calls that add to an object, and to an array.
  unfoldable pub add_all : Item → List (List ℕ × Item) → Item
  add_all o [] = o
  add_all o ((k, v) ∷ fields) = add_all (add o k v) fields

  unfoldable pub push_all : Item → List Item → Item
  push_all a [] = a
  push_all a (v ∷ vs) = push_all (push a v) vs

  abbrev pub whole : ℕ → Item
  whole n = number (double (pos n))

  -- The calls for a location.
  abbrev pub location_fields : Location → List (List ℕ × Item)
  location_fields l =
      (codes "server_id", string l.server_id)
      ∷ (codes "remote_path", string l.remote_path)
      ∷ (codes "upload_time", whole l.upload_time)
      ∷ (codes "verified", bool l.verified)
      ∷ (codes "last_verified", whole l.last_verified)
      ∷ []

  unfoldable pub location_to_json : Location → Item
  location_to_json l = add_all object (location_fields l)

  -- The loop over the locations.
  unfoldable pub location_items : (ℕ → Bool) → List Location → List Item
  location_items granted [] = []
  location_items granted (l ∷ ls) =
      let rest = location_items (λ i. granted (suc i)) ls in
      if granted 0 then location_to_json l ∷ rest else rest

  abbrev pub chunk_fields : Chunk → List (List ℕ × Item)
  chunk_fields chunk =
      (codes "id", string chunk.id)
      ∷ (codes "sequence_number", whole chunk.sequence_number)
      ∷ (codes "size", whole chunk.size)
      ∷ (codes "created_timestamp", whole chunk.created_timestamp)
      ∷ (codes "hash", string (hex_bytes chunk.hash))
      ∷ []

  unfoldable pub chunk_to_json : ChunkGrants → Chunk → Option Item
  chunk_to_json granted chunk =
      let basic = add_all object (chunk_fields chunk) in
      let items = location_items granted.location chunk.locations in
      if not granted.object
      then none
      else if granted.array
      then some (add basic (codes "locations") (push_all array items))
      else some basic

  -- The loop over the chunks, which passes over a chunk with no item.
  unfoldable pub chunk_items : (ℕ → ChunkGrants) → List Chunk → List Item
  chunk_items granted [] = []
  chunk_items granted (chunk ∷ chunks) =
      let rest = chunk_items (λ i. granted (suc i)) chunks in
      elim (chunk_to_json (granted 0) chunk) [ none ↦ rest | some item ↦ item ∷ rest ]

  abbrev pub manifest_fields : FileManifest → List (List ℕ × Item)
  manifest_fields m =
      (codes "version", string m.version)
      ∷ (codes "manifest_id", string m.manifest_id)
      ∷ (codes "original_filename", string m.original_filename)
      ∷ (codes "total_size", whole m.total_size)
      ∷ (codes "chunk_size", whole m.chunk_size)
      ∷ (codes "chunk_count", whole m.chunk_count)
      ∷ (codes "file_hash", string (hex_bytes m.file_hash))
      ∷ (codes "created_timestamp", whole m.created_timestamp)
      ∷ (codes "last_accessed", whole m.last_accessed)
      ∷ (codes "last_modified", whole m.last_modified)
      ∷ (codes "last_verified", whole m.last_verified)
      ∷ (codes "replication_factor", number (double m.replication_factor))
      ∷ (codes "min_replicas_required", number (double m.min_replicas_required))
      ∷ (codes "creator_info", string m.creator_info)
      ∷ (codes "comment", string m.comment)
      ∷ []

  -- The item that is printed.
  unfoldable pub manifest_item : Grants → FileManifest → Item
  manifest_item granted m =
      add (add_all object (manifest_fields m)) (codes "chunks")
        (push_all array (chunk_items granted.chunk (chunks_of m)))

  unfoldable pub to_json : Grants → FileManifest → Result (List ℕ)
  to_json granted m =
      if not granted.object
      then err out_of_memory
      else if not granted.array
      then err out_of_memory
      else if not granted.printed
      then err out_of_memory
      else ok (print (manifest_item granted m))

  -- The reads of a field, over what `memset` left: a text cut to its array, a number, a truth value
  -- and a hash, and the items of an array.
  unfoldable pub text_at : Item → List ℕ → ℕ → List ℕ
  text_at j key size = elim (get j key) [
    | none ↦ []
    | some item ↦ (elim (string_value item) [ none ↦ [] | some text ↦ take (size - 1) text ])
  ]

  unfoldable pub number_at : Item → List ℕ → ℤ
  number_at j key = elim (get j key) [
    | none ↦ pos 0
    | some item ↦ (elim (number_value item) [ none ↦ pos 0 | some d ↦ truncated d ])
  ]

  abbrev pub size_at : Item → List ℕ → ℕ
  size_at j key = pos_part (number_at j key)

  unfoldable pub bool_at : Item → List ℕ → Bool
  bool_at j key = elim (get j key) [
    | none ↦ false
    | some item ↦ (elim (bool_value item) [ none ↦ false | some b ↦ b ])
  ]

  unfoldable pub hash_at : Item → List ℕ → List ℕ
  hash_at j key = elim (get j key) [
    | none ↦ replicate 32 0
    | some item ↦ (elim (string_value item) [
      | none ↦ replicate 32 0
      | some text ↦ (hex_string_to_hash text (replicate 32 0)).1
    ])
  ]

  unfoldable pub items_at : Item → List ℕ → List Item
  items_at j key = elim (get j key) [
    | none ↦ []
    | some item ↦ (elim (elements item) [ none ↦ [] | some items ↦ items ])
  ]

  unfoldable pub location_from_json : Item → Location
  location_from_json j = record {
    server_id = text_at j (codes "server_id") 64;
    remote_path = text_at j (codes "remote_path") max_path_len;
    upload_time = size_at j (codes "upload_time");
    verified = bool_at j (codes "verified");
    last_verified = size_at j (codes "last_verified");
  }

  -- It returns SUCCESS for every item.
  unfoldable pub chunk_from_json : Item → Chunk
  chunk_from_json j = record {
    id = text_at j (codes "id") 17;
    hash = hash_at j (codes "hash");
    size = size_at j (codes "size");
    sequence_number = u32 (size_at j (codes "sequence_number"));
    created_timestamp = size_at j (codes "created_timestamp");
    locations = map location_from_json (take max_chunk_locations (items_at j (codes "locations")));
    bytes = none;
    data_owned = false;
  }

  -- The part before the chunks.
  unfoldable pub basic_from_json : Item → FileManifest
  basic_from_json root = record zero_manifest {
    version = text_at root (codes "version") 16;
    manifest_id = text_at root (codes "manifest_id") 64;
    original_filename = text_at root (codes "original_filename") max_path_len;
    total_size = size_at root (codes "total_size");
    chunk_size = size_at root (codes "chunk_size");
    chunk_count = u32 (size_at root (codes "chunk_count"));
    file_hash = hash_at root (codes "file_hash");
    created_timestamp = size_at root (codes "created_timestamp");
    last_accessed = size_at root (codes "last_accessed");
    last_modified = size_at root (codes "last_modified");
    last_verified = size_at root (codes "last_verified");
    replication_factor = number_at root (codes "replication_factor");
    min_replicas_required = number_at root (codes "min_replicas_required");
    creator_info = text_at root (codes "creator_info") 256;
    comment = text_at root (codes "comment") 512;
  }

  -- The part with the chunks; `allocated` is the answer of `malloc`.
  unfoldable pub with_chunks : Bool → FileManifest → List Item → Result FileManifest
  with_chunks allocated m [] = ok m
  with_chunks allocated m (item ∷ items) =
      if not allocated
      then err out_of_memory
      else ok (record m {
        chunks = some (map chunk_from_json (item ∷ items));
        chunks_owned = true;
        chunk_count = u32 (length (item ∷ items));
      })

  unfoldable pub from_json : Bool → List ℕ → Result FileManifest
  from_json allocated text = elim (parse text) [
    | none ↦ err manifest_corrupt
    | some root ↦ with_chunks allocated (basic_from_json root) (items_at root (codes "chunks"))
  ]
