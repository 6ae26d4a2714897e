-- ===== src/Manifest/ChunkJson.antt =====
-- A chunk as src/manifest.c writes it to JSON and reads it back.
use net_chunk.Base.{
  ℕ, suc, ◌^◌, ◌<◌, ◌≤◌, Bool, true, false, none, some, List, [], ◌∷◌, ◌≡◌, refl, ap, ap₂, ◌∙◌,
  arith, All, map, length, length-map, take, take_all, u32,
}
use net_chunk.Libc.Text.{codes, same_text_nocase}
use net_chunk.Chunker.Types.{Location, Chunk}
use net_chunk.Manifest.Cjson.{Cjson, CjsonLaws}
use net_chunk.Manifest.Json.{
  ChunkGrants, add_all, push_all, location_fields, location_to_json, chunk_fields, location_items,
  chunk_to_json, chunk_items, size_at, items_at, location_from_json, chunk_from_json,
}
use net_chunk.Manifest.JsonLaws.{
  IsSmall, IsHash, get-fields, get-fields_add, text_at_lem, size_at_lem, bool_at_lem, hash_at_lem,
  items_at_lem, elements-push_all,
}

-- A location whose texts fit their arrays.
pub record IsStorableLocation (l : Location) : Type 0 where
  pub server_fits : length l.server_id < 64
  pub path_fits : length l.remote_path < 1024
  pub uploaded : IsSmall l.upload_time
  pub last : IsSmall l.last_verified

pub record IsStorableChunk (chunk : Chunk) : Type 0 where
  pub id_fits : length chunk.id < 17
  pub is_hash : IsHash chunk.hash
  pub size_small : IsSmall chunk.size
  pub sequence_small : chunk.sequence_number < 2 ^ 32
  pub created_small : IsSmall chunk.created_timestamp
  pub few : length chunk.locations ≤ 10
  pub locations_fit : All IsStorableLocation chunk.locations

-- The parts of a chunk that a manifest keeps.
abbrev pub kept : Chunk → Chunk
kept chunk = record chunk { bytes = none; data_owned = false }

-- Every call that creates an item gets its memory.
abbrev pub AllGranted : (ℕ → ChunkGrants) → Type 0
AllGranted granted =
    (i : ℕ)
    → ((granted i).object ≡ true)
      × ((granted i).array ≡ true)
      × ((j : ℕ) → (granted i).location j ≡ true)

module _ (c : Cjson) where
  open c use {Item, array, object, add}

  -- The item of a chunk whose memory is granted.
  abbrev pub chunk_item : Chunk → Item
  chunk_item chunk =
      add (add_all c object (chunk_fields c chunk)) (codes "locations")
        (push_all c array (map (location_to_json c) chunk.locations))

module _ (c : Cjson) (laws : CjsonLaws c) where
  open c use {object, array}

  pub location_round_trip :
      (l : Location) → IsStorableLocation l → location_from_json c (location_to_json c l) ≡ l
  unfolding location_from_json location_to_json same_text_nocase
  location_round_trip l s =
      let o = add_all c object (location_fields c l) in
      let at = get-fields c laws (location_fields c l) in
      λ i. record {
        server_id =
            text_at_lem c laws o (codes "server_id") 64 l.server_id (at (codes "server_id"))
              (omega (arith, s.server_fits)) i;
        remote_path =
            text_at_lem c laws o (codes "remote_path") 1024 l.remote_path (at (codes "remote_path"))
              (omega (arith, s.path_fits)) i;
        upload_time =
            size_at_lem c laws o (codes "upload_time") l.upload_time (at (codes "upload_time"))
              s.uploaded i;
        verified = bool_at_lem c laws o (codes "verified") l.verified (at (codes "verified")) i;
        last_verified =
            size_at_lem c laws o (codes "last_verified") l.last_verified
              (at (codes "last_verified")) s.last i;
      }

  map-all :
      (ls : List Location)
      → All IsStorableLocation ls
      → map (location_from_json c) (map (location_to_json c) ls) ≡ ls
  map-all [] h = refl
  map-all (l ∷ ls) h = ap₂ (λ x xs. x ∷ xs) (location_round_trip l h.0) (map-all ls h.1)

  location_items_all :
      (granted : ℕ → Bool) (ls : List Location)
      → ((i : ℕ) → granted i ≡ true)
      → location_items c granted ls ≡ map (location_to_json c) ls
  unfolding location_items
  location_items_all granted [] all = refl
  location_items_all granted (l ∷ ls) all = rw (all 0) (
      ap (λ xs. location_to_json c l ∷ xs)
        (location_items_all (λ i. granted (suc i)) ls (λ i. all (suc i))))

  pub chunk_round_trip :
      (chunk : Chunk) → IsStorableChunk chunk → chunk_from_json c (chunk_item c chunk) ≡ kept chunk
  unfolding chunk_from_json same_text_nocase
  chunk_round_trip chunk s =
      let o = chunk_item c chunk in
      let fields = chunk_fields c chunk in
      let items = map (location_to_json c) chunk.locations in
      let at = get-fields_add c laws fields (codes "locations") (push_all c array items) in
      let sequence : u32 (size_at c o (codes "sequence_number")) ≡ chunk.sequence_number =
        ap u32 (
          size_at_lem c laws o (codes "sequence_number") chunk.sequence_number
            (at (codes "sequence_number")) (omega (arith, s.sequence_small)))
        ∙ omega (arith, s.sequence_small) in
      let all_read : map (location_from_json c) (take 10 (items_at c o (codes "locations")))
          ≡ chunk.locations =
        ap (λ xs. map (location_from_json c) (take 10 xs))
          (items_at_lem c laws o (codes "locations") (push_all c array items) items
            (at (codes "locations")) (elements-push_all c laws items))
        ∙ ap (map (location_from_json c)) (
            take_all 10 items
              (omega (arith, s.few, length-map (location_to_json c) chunk.locations)))
        ∙ map-all chunk.locations s.locations_fit in
      λ i. record {
        id =
            text_at_lem c laws o (codes "id") 17 chunk.id (at (codes "id"))
              (omega (arith, s.id_fits)) i;
        hash = hash_at_lem c laws o (codes "hash") chunk.hash (at (codes "hash")) s.is_hash i;
        size = size_at_lem c laws o (codes "size") chunk.size (at (codes "size")) s.size_small i;
        sequence_number = sequence i;
        created_timestamp =
            size_at_lem c laws o (codes "created_timestamp") chunk.created_timestamp
              (at (codes "created_timestamp")) s.created_small i;
        locations = all_read i;
        bytes = none;
        data_owned = false;
      }

  chunk_to_json_granted :
      (granted : ChunkGrants) (chunk : Chunk)
      → granted.object ≡ true
      → granted.array ≡ true
      → ((j : ℕ) → granted.location j ≡ true)
      → chunk_to_json c granted chunk ≡ some (chunk_item c chunk)
  unfolding chunk_to_json
  chunk_to_json_granted granted chunk o a ls =
      rw (chunk_to_json, o, a, location_items_all granted.location chunk.locations ls) refl

  pub chunk_items_all :
      (granted : ℕ → ChunkGrants) (chunks : List Chunk)
      → AllGranted granted
      → chunk_items c granted chunks ≡ map (chunk_item c) chunks
  unfolding chunk_items
  chunk_items_all granted [] all = refl
  chunk_items_all granted (chunk ∷ chunks) all =
      let (o, a, ls) = all 0 in
      rw (chunk_items, chunk_to_json_granted (granted 0) chunk o a ls)
        (ap (λ xs. chunk_item c chunk ∷ xs)
          (chunk_items_all (λ i. granted (suc i)) chunks (λ i. all (suc i))))

  pub map-chunk_items :
      (chunks : List Chunk)
      → All IsStorableChunk chunks
      → map (chunk_from_json c) (map (chunk_item c) chunks) ≡ map kept chunks
  map-chunk_items [] h = refl
  map-chunk_items (chunk ∷ chunks) h =
      ap₂ (λ x xs. x ∷ xs) (chunk_round_trip chunk h.0) (map-chunk_items chunks h.1)
