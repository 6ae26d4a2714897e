-- ===== src/Manifest/Cjson.antt =====
-- What src/manifest.c calls of cJSON, which is not part of the repository, and what it relies on.
use net_chunk.Base.{
  ℕ, suc, ◌^◌, ◌≤◌, Bool, Option, none, some, List, [], ◌∷◌, ◌++◌, ◌≡◌, if◌then◌else◌,
}
use net_chunk.Base.Int.{ℤ, pos_part, neg_part}
use net_chunk.Libc.Text.{same_text_nocase}

-- Items and the numbers in them, which are `double`s. `add` is `cJSON_AddItemToObject`, `push`
-- `cJSON_AddItemToArray`, `get` `cJSON_GetObjectItem`; a value is `none` where the item is of
-- another kind. `double` and `truncated` are the conversions of C.
pub record Cjson : Type 1 where
  pub Item : Type 0
  pub Double : Type 0
  pub double : ℤ → Double
  pub truncated : Double → ℤ
  pub object : Item
  pub array : Item
  pub string : List ℕ → Item
  pub number : Double → Item
  pub bool : Bool → Item
  pub add : Item → List ℕ → Item → Item
  pub push : Item → Item → Item
  pub get : Item → List ℕ → Option Item
  pub string_value : Item → Option (List ℕ)
  pub number_value : Item → Option Double
  pub bool_value : Item → Option Bool
  pub elements : Item → Option (List Item)
  pub print : Item → List ℕ
  pub parse : List ℕ → Option Item

-- The integers that a `double` holds exactly.
abbrev pub IsExact : ℤ → Type 0
IsExact z = (pos_part z ≤ 2 ^ 53) × (neg_part z ≤ 2 ^ 53)

-- The first of two that is there.
abbrev pub or_else {ℓ} : {A : Type ℓ} → Option A → Option A → Option A
or_else none y = y
or_else (some x) y = some x

module _ (c : Cjson) where
  open c use {Item, double, object, array, string, number, bool, add, push}

  -- The items that are put together from integers, texts and truth values, at most `n` deep.
  pub data IsBuilt : ℕ → Item → Type 0 where
    object_built : {n : ℕ} → IsBuilt (suc n) object
    array_built : {n : ℕ} → IsBuilt (suc n) array
    string_built : {n : ℕ} (t : List ℕ) → IsBuilt n (string t)
    number_built : {n : ℕ} (z : ℤ) → IsBuilt n (number (double z))
    bool_built : {n : ℕ} (b : Bool) → IsBuilt n (bool b)
    add_built :
        {n : ℕ} {o : Item} {v : Item} (k : List ℕ)
        → IsBuilt (suc n) o
        → IsBuilt n v
        → IsBuilt (suc n) (add o k v)
    push_built :
        {n : ℕ} {a : Item} {v : Item} → IsBuilt (suc n) a → IsBuilt n v → IsBuilt (suc n) (push a v)

  -- The documented behaviour: keys are compared without case and the first one counts, and what is
  -- printed is parsed back, down to the nesting limit.
  pub record CjsonLaws : Type 0 where
    pub truncated-double : (z : ℤ) → IsExact z → c.truncated (double z) ≡ z
    pub get-object : (k : List ℕ) → c.get object k ≡ none
    pub get-add :
        (o : Item) (k : List ℕ) (v : Item) (j : List ℕ)
        → c.get (add o k v) j ≡ or_else (c.get o j) (if same_text_nocase k j then some v else none)
    pub string_value-string : (t : List ℕ) → c.string_value (string t) ≡ some t
    pub number_value-number : (d : c.Double) → c.number_value (number d) ≡ some d
    pub bool_value-bool : (b : Bool) → c.bool_value (bool b) ≡ some b
    pub elements-array : c.elements array ≡ some []
    pub elements-push :
        (a : Item) (xs : List Item) (v : Item)
        → c.elements a ≡ some xs
        → c.elements (push a v) ≡ some (xs ++ (v ∷ []))
    pub parse-print : (j : Item) → IsBuilt 1000 j → c.parse (c.print j) ≡ some j
