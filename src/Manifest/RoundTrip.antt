-- ===== src/Manifest/RoundTrip.antt =====
-- A manifest that src/manifest.c writes to JSON, or saves to a file, and reads back.
use net_chunk.Base.{
  ℕ, ◌^◌, ◌<◌, true, false, none, some, List, [], ◌∷◌, ◌≡◌, ◌⊎◌, refl, ap, ◌∙◌, arith, inl, inr,
  All, map, Bool-cases, length, length-map, u32, out_of_memory, ok, err,
}
use net_chunk.Libc.Text.{codes, same_text_nocase}
use net_chunk.Chunker.Types.{Chunk}
use net_chunk.Manifest.Types.{FileManifest, chunks_of}
use net_chunk.Manifest.Cjson.{Cjson, CjsonLaws, IsExact}
use net_chunk.Manifest.Json.{
  Grants, add_all, push_all, manifest_fields, manifest_item, to_json, size_at, basic_from_json,
  with_chunks, from_json,
}
use net_chunk.Manifest.JsonLaws.{
  IsSmall, IsHash, get-fields_add, text_at_lem, number_at_lem, size_at_lem, hash_at_lem,
  items_at_lem, elements-push_all,
}
use net_chunk.Manifest.Nesting.{manifest-IsBuilt}
use net_chunk.Manifest.ChunkJson.{
  IsStorableChunk, kept, chunk_item, AllGranted, chunk_items_all, map-chunk_items,
}

-- A manifest whose texts fit their arrays and whose numbers a `double` holds.
pub record IsStorable (m : FileManifest) : Type 0 where
  pub version_fits : length m.version < 16
  pub manifest_id_fits : length m.manifest_id < 64
  pub filename_fits : length m.original_filename < 1024
  pub creator_fits : length m.creator_info < 256
  pub comment_fits : length m.comment < 512
  pub is_hash : IsHash m.file_hash
  pub total_small : IsSmall m.total_size
  pub chunk_size_small : IsSmall m.chunk_size
  pub count_small : m.chunk_count < 2 ^ 32
  pub created_small : IsSmall m.created_timestamp
  pub accessed_small : IsSmall m.last_accessed
  pub modified_small : IsSmall m.last_modified
  pub verified_small : IsSmall m.last_verified
  pub replication_exact : IsExact m.replication_factor
  pub min_exact : IsExact m.min_replicas_required
  pub chunks_fit : All IsStorableChunk (chunks_of m)
  pub chunks_counted : length (chunks_of m) < 2 ^ 32

-- What is read back where there are chunks, and where there are none.
abbrev pub with_kept : FileManifest → List Chunk → FileManifest
with_kept m [] = record m { original_size = 0; chunks = none; chunks_owned = false }
with_kept m (chunk ∷ chunks) = record m {
  original_size = 0;
  chunks = some (map kept (chunk ∷ chunks));
  chunks_owned = true;
  chunk_count = length (chunk ∷ chunks);
}

abbrev pub reloaded : FileManifest → FileManifest
reloaded m = with_kept m (chunks_of m)

module _ (c : Cjson) (laws : CjsonLaws c) where
  open c use {Item, object, array, add, print, parse}

  -- The item of a manifest whose memory is granted.
  abbrev full_item : FileManifest → Item
  full_item m =
      add (add_all c object (manifest_fields c m)) (codes "chunks")
        (push_all c array (map (chunk_item c) (chunks_of m)))

  manifest_item_granted :
      (granted : Grants) (m : FileManifest)
      → AllGranted granted.chunk
      → manifest_item c granted m ≡ full_item m
  unfolding manifest_item
  manifest_item_granted granted m all =
      ap
        (λ items.
          add (add_all c object (manifest_fields c m)) (codes "chunks") (push_all c array items))
        (chunk_items_all c laws granted.chunk (chunks_of m) all)

  basic_round_trip :
      (m : FileManifest) → IsStorable m → basic_from_json c (full_item m) ≡ with_kept m []
  unfolding basic_from_json same_text_nocase
  basic_round_trip m s =
      let o = full_item m in
      let at =
        get-fields_add c laws (manifest_fields c m) (codes "chunks")
          (push_all c array (map (chunk_item c) (chunks_of m))) in
      let count : u32 (size_at c o (codes "chunk_count")) ≡ m.chunk_count =
        ap u32 (
          size_at_lem c laws o (codes "chunk_count") m.chunk_count (at (codes "chunk_count"))
            (omega (arith, s.count_small)))
        ∙ omega (arith, s.count_small) in
      λ i. record {
        original_filename =
            text_at_lem c laws o (codes "original_filename") 1024 m.original_filename
              (at (codes "original_filename")) (omega (arith, s.filename_fits)) i;
        manifest_id =
            text_at_lem c laws o (codes "manifest_id") 64 m.manifest_id (at (codes "manifest_id"))
              (omega (arith, s.manifest_id_fits)) i;
        version =
            text_at_lem c laws o (codes "version") 16 m.version (at (codes "version"))
              (omega (arith, s.version_fits)) i;
        total_size =
            size_at_lem c laws o (codes "total_size") m.total_size (at (codes "total_size"))
              s.total_small i;
        original_size = 0;
        file_hash =
            hash_at_lem c laws o (codes "file_hash") m.file_hash (at (codes "file_hash")) s.is_hash
              i;
        chunk_size =
            size_at_lem c laws o (codes "chunk_size") m.chunk_size (at (codes "chunk_size"))
              s.chunk_size_small i;
        chunk_count = count i;
        created_timestamp =
            size_at_lem c laws o (codes "created_timestamp") m.created_timestamp
              (at (codes "created_timestamp")) s.created_small i;
        last_accessed =
            size_at_lem c laws o (codes "last_accessed") m.last_accessed
              (at (codes "last_accessed")) s.accessed_small i;
        last_modified =
            size_at_lem c laws o (codes "last_modified") m.last_modified
              (at (codes "last_modified")) s.modified_small i;
        last_verified =
            size_at_lem c laws o (codes "last_verified") m.last_verified
              (at (codes "last_verified")) s.verified_small i;
        chunks = none;
        chunks_owned = false;
        replication_factor =
            number_at_lem c laws o (codes "replication_factor") m.replication_factor
              (at (codes "replication_factor")) s.replication_exact i;
        min_replicas_required =
            number_at_lem c laws o (codes "min_replicas_required") m.min_replicas_required
              (at (codes "min_replicas_required")) s.min_exact i;
        creator_info =
            text_at_lem c laws o (codes "creator_info") 256 m.creator_info
              (at (codes "creator_info")) (omega (arith, s.creator_fits)) i;
        comment =
            text_at_lem c laws o (codes "comment") 512 m.comment (at (codes "comment"))
              (omega (arith, s.comment_fits)) i;
      }

  chunks_round_trip :
      (m : FileManifest) (chunks : List Chunk)
      → All IsStorableChunk chunks
      → length chunks < 2 ^ 32
      → with_chunks c true (with_kept m []) (map (chunk_item c) chunks) ≡ ok (with_kept m chunks)
  unfolding with_chunks
  chunks_round_trip m [] h few = refl
  chunks_round_trip m (chunk ∷ chunks) h few =
      let count : u32 (length (map (chunk_item c) (chunk ∷ chunks))) ≡ length (chunk ∷ chunks) =
        omega (arith, length-map (chunk_item c) (chunk ∷ chunks)) in
      λ i. ok (record m {
        original_size = 0;
        chunks = some (map-chunk_items c laws (chunk ∷ chunks) h i);
        chunks_owned = true;
        chunk_count = count i;
      })

  pub to_json-cases :
      (granted : Grants) (m : FileManifest)
      → (to_json c granted m ≡ err out_of_memory)
        ⊎ ((text : List ℕ) × (to_json c granted m ≡ ok text))
  unfolding to_json manifest_item
  to_json-cases granted m = elim (Bool-cases granted.object) [
    | inr o ↦ rw (to_json, o) (inl refl)
    | inl o ↦ elim (Bool-cases granted.array) [
      | inr a ↦ rw (to_json, o, a) (inl refl)
      | inl a ↦ elim (Bool-cases granted.printed) [
        | inr p ↦ rw (to_json, o, a, p) (inl refl)
        | inl p ↦ rw (to_json, o, a, p) (inr (print (manifest_item c granted m), refl))
      ]
    ]
  ]

  to_json_printed :
      (granted : Grants) (m : FileManifest) (text : List ℕ)
      → to_json c granted m ≡ ok text
      → text ≡ print (manifest_item c granted m)
  unfolding to_json
  to_json_printed granted m text made = ground arith

  from_json_printed :
      (m : FileManifest) → IsStorable m → from_json c true (print (full_item m)) ≡ ok (reloaded m)
  unfolding from_json same_text_nocase
  from_json_printed m s =
      let items = map (chunk_item c) (chunks_of m) in
      let found =
        items_at_lem c laws (full_item m) (codes "chunks") (push_all c array items) items
          (get-fields_add c laws (manifest_fields c m) (codes "chunks") (push_all c array items)
            (codes "chunks"))
          (elements-push_all c laws items) in
      rw
        (
          from_json,
          laws.parse-print (full_item m) (manifest-IsBuilt c 995 m (chunks_of m)),
          found,
          basic_round_trip m s,
        )
        (chunks_round_trip m (chunks_of m) s.chunks_fit s.chunks_counted)

  -- With memory granted, the JSON of a storable manifest is read back as the manifest, without
  -- `original_size` and the bytes of the chunks.
  pub from_json-to_json :
      (granted : Grants) (m : FileManifest) (text : List ℕ)
      → AllGranted granted.chunk
      → IsStorable m
      → to_json c granted m ≡ ok text
      → from_json c true text ≡ ok (reloaded m)
  from_json-to_json granted m text all s made =
      ap (from_json c true)
        (to_json_printed granted m text made ∙ ap print (manifest_item_granted granted m all))
      ∙ from_json_printed m s
