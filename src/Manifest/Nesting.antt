-- ===== src/Manifest/Nesting.antt =====
-- The items of src/manifest.c are put together within the nesting limit of cJSON.
use net_chunk.Base.{ℕ, suc, List, [], ◌∷◌, All, map}
use net_chunk.Base.Int.{pos}
use net_chunk.Libc.Text.{codes}
use net_chunk.Crypto.Hex.{hex_bytes}
use net_chunk.Chunker.Types.{Location, Chunk}
use net_chunk.Manifest.Types.{FileManifest}
use net_chunk.Manifest.Cjson.{
  Cjson, IsBuilt, object_built, array_built, string_built, number_built, bool_built, add_built,
  push_built,
}
use net_chunk.Manifest.Json.{
  add_all, push_all, location_fields, location_to_json, chunk_fields, manifest_fields,
}
use net_chunk.Manifest.ChunkJson.{chunk_item}

module _ (c : Cjson) where
  open c use {Item, object, array, add, push}

  add_all-IsBuilt :
      (n : ℕ) (o : Item) (fields : List (List ℕ × Item))
      → IsBuilt c (suc n) o
      → All (λ f. IsBuilt c n f.1) fields
      → IsBuilt c (suc n) (add_all c o fields)
  unfolding add_all
  add_all-IsBuilt n o [] b h = b
  add_all-IsBuilt n o ((k, v) ∷ fields) b h =
      add_all-IsBuilt n (add o k v) fields (add_built k b h.0) h.1

  push_all-IsBuilt :
      (n : ℕ) (a : Item) (items : List Item)
      → IsBuilt c (suc n) a
      → All (IsBuilt c n) items
      → IsBuilt c (suc n) (push_all c a items)
  unfolding push_all
  push_all-IsBuilt n a [] b h = b
  push_all-IsBuilt n a (v ∷ items) b h = push_all-IsBuilt n (push a v) items (push_built b h.0) h.1

  location-IsBuilt : (n : ℕ) (l : Location) → IsBuilt c (suc n) (location_to_json c l)
  unfolding location_to_json
  location-IsBuilt n l = add_all-IsBuilt n object (location_fields c l) object_built (
    string_built l.server_id,
    (
      string_built l.remote_path,
      (
        number_built (pos l.upload_time),
        (bool_built l.verified, (number_built (pos l.last_verified), tt)),
      ),
    ),
  )

  locations-IsBuilt :
      (n : ℕ) (ls : List Location) → All (IsBuilt c (suc n)) (map (location_to_json c) ls)
  locations-IsBuilt n [] = tt
  locations-IsBuilt n (l ∷ ls) = (location-IsBuilt n l, locations-IsBuilt n ls)

  chunk-IsBuilt : (n : ℕ) (chunk : Chunk) → IsBuilt c (suc (suc (suc n))) (chunk_item c chunk)
  chunk-IsBuilt n chunk =
      add_built (codes "locations")
        (add_all-IsBuilt (suc (suc n)) object (chunk_fields c chunk) object_built (
          string_built chunk.id,
          (
            number_built (pos chunk.sequence_number),
            (
              number_built (pos chunk.size),
              (
                number_built (pos chunk.created_timestamp),
                (string_built (hex_bytes chunk.hash), tt),
              ),
            ),
          ),
        ))
        (push_all-IsBuilt (suc n) array (map (location_to_json c) chunk.locations) array_built
          (locations-IsBuilt n chunk.locations))

  chunks-IsBuilt :
      (n : ℕ) (chunks : List Chunk)
      → All (IsBuilt c (suc (suc (suc n)))) (map (chunk_item c) chunks)
  chunks-IsBuilt n [] = tt
  chunks-IsBuilt n (chunk ∷ chunks) = (chunk-IsBuilt n chunk, chunks-IsBuilt n chunks)

  -- Four levels are enough and one more is left for each further unit of `n`.
  pub manifest-IsBuilt :
      (n : ℕ) (m : FileManifest) (chunks : List Chunk)
      → IsBuilt c (suc (suc (suc (suc (suc n))))) (
          add
            (add_all c object (manifest_fields c m))
            (codes "chunks")
            (push_all c array (map (chunk_item c) chunks)))
  manifest-IsBuilt n m chunks =
      add_built (codes "chunks")
        (add_all-IsBuilt (suc (suc (suc (suc n)))) object (manifest_fields c m) object_built (
          string_built m.version,
          (
            string_built m.manifest_id,
            (
              string_built m.original_filename,
              (
                number_built (pos m.total_size),
                (
                  number_built (pos m.chunk_size),
                  (
                    number_built (pos m.chunk_count),
                    (
                      string_built (hex_bytes m.file_hash),
                      (
                        number_built (pos m.created_timestamp),
                        (
                          number_built (pos m.last_accessed),
                          (
                            number_built (pos m.last_modified),
                            (
                              number_built (pos m.last_verified),
                              (
                                number_built m.replication_factor,
                                (
                                  number_built m.min_replicas_required,
                                  (string_built m.creator_info, (string_built m.comment, tt)),
                                ),
                              ),
                            ),
                          ),
                        ),
                      ),
                    ),
                  ),
                ),
              ),
            ),
          ),
        ))
        (push_all-IsBuilt (suc (suc (suc n))) array (map (chunk_item c) chunks) array_built
          (chunks-IsBuilt n chunks))
