-- ===== src/Schema/Flatten/Leaves.antt =====
-- The flat map against a plain enumeration of the leaves of a payload, and what the flat map never
-- holds.
use webhook_mind.Prelude.{
  All, All-append, Distinct, List, Option, String, [], arith, false, if◌then◌else◌, insert,
  insert-Distinct, lookup, lookup-insert, none, refl, some, str_eq, suc, ℕ, ◌++◌, ◌∷◌, ◌≡◌,
}
use webhook_mind.Json.{Fields, Items, Json, arr, cons, end, is_object, member, nil, obj}
use webhook_mind.Schema.Flatten.{
  flatten_item, flatten_items, flatten_json, flatten_recursive, flatten_value, full_key, item_key,
}

-- The entries that a payload produces, in order, with no map: an array stands for itself, and for
-- its items, and an object for its members alone.
mutual
  pub leaves : String → Fields → List (String × Json)
  leaves prefix end = []
  leaves prefix (member key value fs) = leaves_value (full_key prefix key) value ++ leaves prefix fs

  leaves_value : String → Json → List (String × Json)
  leaves_value full (obj fs) = leaves full fs
  leaves_value full (arr xs) = (full, arr xs) ∷ leaves_items full 0 xs
  leaves_value full v = (full, v) ∷ []

  leaves_items : String → ℕ → Items → List (String × Json)
  leaves_items full i nil = []
  leaves_items full i (cons item xs) =
      leaves_item (item_key full i) item ++ leaves_items full (suc i) xs

  leaves_item : String → Json → List (String × Json)
  leaves_item key (obj fs) = leaves key fs
  leaves_item key item = (key, item) ∷ []

-- The value that the last entry for `k` has.
unfoldable pub last_value : String → List (String × Json) → Option Json
last_value k [] = none
last_value k ((j, v) ∷ es) = elim (last_value k es) [
  | some w ↦ some w
  | none ↦ if str_eq j k then some v else none
]

-- The map that assignments in order make.
insert_all : List (String × Json) → List (String × Json) → List (String × Json)
insert_all [] result = result
insert_all ((k, v) ∷ es) result = insert_all es (insert k v result)

insert_all-append :
    (es fs result : List (String × Json))
    → insert_all (es ++ fs) result ≡ insert_all fs (insert_all es result)
unfolding insert_all
insert_all-append [] fs result = refl
insert_all-append ((k, v) ∷ es) fs result = insert_all-append es fs (insert k v result)

mutual
  unfolding flatten_recursive leaves insert_all

  recursive-leaves :
      (fs : Fields) (prefix : String) (result : List (String × Json))
      → flatten_recursive prefix fs result ≡ insert_all (leaves prefix fs) result
  recursive-leaves end prefix result = refl
  recursive-leaves (member key value fs) prefix result =
      rw
        (
          insert_all-append (leaves_value (full_key prefix key) value) (leaves prefix fs) result,
          value-leaves value (full_key prefix key) result,
        )
        (recursive-leaves fs prefix (insert_all (leaves_value (full_key prefix key) value) result))

  value-leaves :
      (v : Json) (full : String) (result : List (String × Json))
      → flatten_value full v result ≡ insert_all (leaves_value full v) result
  value-leaves (obj fs) full result = recursive-leaves fs full result
  value-leaves (arr xs) full result = items-leaves xs full 0 (insert full (arr xs) result)
  value-leaves _ full result = refl

  items-leaves :
      (xs : Items) (full : String) (i : ℕ) (result : List (String × Json))
      → flatten_items full i xs result ≡ insert_all (leaves_items full i xs) result
  items-leaves nil full i result = refl
  items-leaves (cons item xs) full i result =
      rw
        (
          insert_all-append (leaves_item (item_key full i) item) (leaves_items full (suc i) xs)
              result,
          item-leaves item (item_key full i) result,
        )
        (items-leaves xs full (suc i) (insert_all (leaves_item (item_key full i) item) result))

  item-leaves :
      (v : Json) (key : String) (result : List (String × Json))
      → flatten_item key v result ≡ insert_all (leaves_item key v) result
  item-leaves (obj fs) key result = recursive-leaves fs key result
  item-leaves _ key result = refl

lookup-insert_all :
    (k : String) (es result : List (String × Json))
    → lookup k (insert_all es result)
      ≡ elim (last_value k es) [ some w ↦ some w | none ↦ lookup k result ]
unfolding insert_all last_value
lookup-insert_all k [] result = refl
lookup-insert_all k ((j, v) ∷ es) result =
    ground (arith, lookup-insert_all k es (insert j v result), lookup-insert j k v result)

-- A lookup in the flat map of a payload finds the value of the last leaf that has this path, and
-- nothing if no leaf has it.
pub lookup-flatten_json :
    (k : String) (payload : Fields)
    → lookup k (flatten_json payload) ≡ last_value k (leaves "" payload)
unfolding flatten_json lookup
lookup-flatten_json k payload =
    rw (recursive-leaves payload "" []) (ground (arith, lookup-insert_all k (leaves "" payload) []))

-- No value is an object.
abbrev pub NoObjects : List (String × Json) → Type 0
NoObjects = All (λ e. is_object e.1 ≡ false)

insert-NoObjects :
    (k : String) (v : Json) (m : List (String × Json))
    → is_object v ≡ false
    → NoObjects m
    → NoObjects (insert k v m)
unfolding insert
insert-NoObjects k v [] h n = (h, tt)
insert-NoObjects k v ((j, w) ∷ m) h n = ground (arith, insert-NoObjects k v m h n.1)

insert_all-NoObjects :
    (es m : List (String × Json)) → NoObjects es → NoObjects m → NoObjects (insert_all es m)
unfolding insert_all
insert_all-NoObjects [] m h n = n
insert_all-NoObjects ((k, v) ∷ es) m h n =
    insert_all-NoObjects es (insert k v m) h.1 (insert-NoObjects k v m h.0 n)

mutual
  unfolding leaves

  leaves-NoObjects : (fs : Fields) (prefix : String) → NoObjects (leaves prefix fs)
  leaves-NoObjects end prefix = tt
  leaves-NoObjects (member key value fs) prefix =
      All-append _ (leaves_value (full_key prefix key) value) (leaves prefix fs)
        (leaves_value-NoObjects value (full_key prefix key)) (leaves-NoObjects fs prefix)

  leaves_value-NoObjects : (v : Json) (full : String) → NoObjects (leaves_value full v)
  leaves_value-NoObjects (obj fs) full = leaves-NoObjects fs full
  leaves_value-NoObjects (arr xs) full = (refl, leaves_items-NoObjects xs full 0)
  leaves_value-NoObjects _ full = (refl, tt)

  leaves_items-NoObjects : (xs : Items) (full : String) (i : ℕ) → NoObjects (leaves_items full i xs)
  leaves_items-NoObjects nil full i = tt
  leaves_items-NoObjects (cons item xs) full i =
      All-append _ (leaves_item (item_key full i) item) (leaves_items full (suc i) xs)
        (leaves_item-NoObjects item (item_key full i)) (leaves_items-NoObjects xs full (suc i))

  leaves_item-NoObjects : (v : Json) (key : String) → NoObjects (leaves_item key v)
  leaves_item-NoObjects (obj fs) key = leaves-NoObjects fs key
  leaves_item-NoObjects _ key = (refl, tt)

-- The flat map of a payload holds no object, however deep the payload nests.
pub flatten_json-NoObjects : (payload : Fields) → NoObjects (flatten_json payload)
unfolding flatten_json
flatten_json-NoObjects payload =
    rw (recursive-leaves payload "" [])
      (insert_all-NoObjects (leaves "" payload) [] (leaves-NoObjects payload "") tt)

insert_all-Distinct : (es m : List (String × Json)) → Distinct m → Distinct (insert_all es m)
unfolding insert_all
insert_all-Distinct [] m d = d
insert_all-Distinct ((k, v) ∷ es) m d =
    insert_all-Distinct es (insert k v m) (insert-Distinct k v m d)

-- No path occurs twice in the flat map of a payload.
pub flatten_json-Distinct : (payload : Fields) → Distinct (flatten_json payload)
unfolding flatten_json
flatten_json-Distinct payload =
    rw (recursive-leaves payload "" []) (insert_all-Distinct (leaves "" payload) [] tt)
