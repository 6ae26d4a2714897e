-- ===== src/Manifest/JsonLaws.antt =====
-- The reads of src/manifest.c at the items that its writes put together, over cJSON.
use net_chunk.Base.{
  ℕ, ◌-◌, ◌^◌, ◌<◌, ◌≤◌, Bool, Option, none, some, List, [], ◌∷◌, ◌++◌, ◌≡◌, refl, sym, ap, ◌∙◌,
  arith, All, if◌then◌else◌, length, replicate, take_all, length-replicate, append-nil,
  append_assoc, ErrorCode,
}
use net_chunk.Base.Int.{ℤ, pos, pos_part}
use net_chunk.Libc.Text.{same_text_nocase}
use net_chunk.Crypto.Hex.{hex_bytes}
use net_chunk.Crypto.HexLaws.{hex_string_to_hash-hex_bytes}
use net_chunk.Manifest.Cjson.{Cjson, CjsonLaws, IsExact, or_else}
use net_chunk.Manifest.Json.{
  add_all, push_all, whole, text_at, number_at, size_at, bool_at, hash_at, items_at,
}

-- A number that is written and read back exactly.
abbrev pub IsSmall : ℕ → Type 0
IsSmall n = n ≤ 2 ^ 53

-- A hash of 32 bytes.
abbrev pub IsHash : List ℕ → Type 0
IsHash hash = (length hash ≡ 32) × All (λ b. b < 256) hash

module _ (c : Cjson) (laws : CjsonLaws c) where
  open c use {Item, double, object, array, string, number, bool, add, push, get, elements}

  -- The first field of a key, whatever its case.
  abbrev pub find_field : List (List ℕ × Item) → List ℕ → Option Item
  find_field [] j = none
  find_field ((k, v) ∷ fields) j =
      or_else (if same_text_nocase k j then some v else none) (find_field fields j)

  or_else-none : (x : Option Item) → or_else x none ≡ x
  or_else-none none = refl
  or_else-none (some x) = refl

  or_else_assoc : (x y z : Option Item) → or_else (or_else x y) z ≡ or_else x (or_else y z)
  or_else_assoc none y z = refl
  or_else_assoc (some x) y z = refl

  get-add_all :
      (o : Item) (fields : List (List ℕ × Item)) (j : List ℕ)
      → get (add_all c o fields) j ≡ or_else (get o j) (find_field fields j)
  unfolding add_all
  get-add_all o [] j = sym (or_else-none (get o j))
  get-add_all o ((k, v) ∷ fields) j =
      get-add_all (add o k v) fields j
      ∙ ap (λ x. or_else x (find_field fields j)) (laws.get-add o k v j)
      ∙ or_else_assoc (get o j) (if same_text_nocase k j then some v else none)
          (find_field fields j)

  pub get-fields :
      (fields : List (List ℕ × Item)) (j : List ℕ)
      → get (add_all c object fields) j ≡ find_field fields j
  get-fields fields j =
      get-add_all object fields j ∙ ap (λ x. or_else x (find_field fields j)) (laws.get-object j)

  pub get-fields_add :
      (fields : List (List ℕ × Item)) (k : List ℕ) (v : Item) (j : List ℕ)
      → get (add (add_all c object fields) k v) j
        ≡ or_else (find_field fields j) (if same_text_nocase k j then some v else none)
  get-fields_add fields k v j =
      laws.get-add (add_all c object fields) k v j
      ∙ ap (λ x. or_else x (if same_text_nocase k j then some v else none)) (get-fields fields j)

  module _ (o : Item) (key : List ℕ) where
    pub text_at_lem :
        (size : ℕ) (t : List ℕ)
        → get o key ≡ some (string t)
        → length t ≤ size - 1
        → text_at c o key size ≡ t
    unfolding text_at
    text_at_lem size t there fits =
        rw (text_at, there, laws.string_value-string t) (take_all (size - 1) t fits)

    pub number_at_lem :
        (z : ℤ) → get o key ≡ some (number (double z)) → IsExact z → number_at c o key ≡ z
    unfolding number_at
    number_at_lem z there exact =
        rw (number_at, there, laws.number_value-number (double z)) (laws.truncated-double z exact)

    pub size_at_lem : (n : ℕ) → get o key ≡ some (whole c n) → IsSmall n → size_at c o key ≡ n
    size_at_lem n there small = ap pos_part (number_at_lem (pos n) there (small, omega arith))

    pub bool_at_lem : (b : Bool) → get o key ≡ some (bool b) → bool_at c o key ≡ b
    unfolding bool_at
    bool_at_lem b there = rw (bool_at, there, laws.bool_value-bool b) refl

    pub hash_at_lem :
        (hash : List ℕ)
        → get o key ≡ some (string (hex_bytes hash))
        → IsHash hash
        → hash_at c o key ≡ hash
    unfolding hash_at
    hash_at_lem hash there is_hash =
        rw (hash_at, there, laws.string_value-string (hex_bytes hash))
          (ap (λ (x : ErrorCode × List ℕ). x.1)
            (hex_string_to_hash-hex_bytes hash (replicate 32 0) is_hash.1 (omega arith)
              (length-replicate 32 0 ∙ sym is_hash.0)))

    pub items_at_lem :
        (a : Item) (items : List Item)
        → get o key ≡ some a
        → elements a ≡ some items
        → items_at c o key ≡ items
    unfolding items_at
    items_at_lem a items there held = rw (items_at, there, held) refl

  elements-push_all_from :
      (a : Item) (items more : List Item)
      → elements a ≡ some items
      → elements (push_all c a more) ≡ some (items ++ more)
  unfolding push_all
  elements-push_all_from a items [] held = rw append-nil held
  elements-push_all_from a items (v ∷ more) held =
      elements-push_all_from (push a v) (items ++ (v ∷ [])) more (laws.elements-push a items v held)
      ∙ ap some (append_assoc items (v ∷ []) more)

  pub elements-push_all : (items : List Item) → elements (push_all c array items) ≡ some items
  elements-push_all items = elements-push_all_from array [] items laws.elements-array
