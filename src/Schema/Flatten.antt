-- ===== src/Schema/Flatten.antt =====
-- internal/schema/flatten.go: `FlattenJSON`, `flattenRecursive` and `DetectType`. The result map is
-- passed along; the two `type switch` arms of the source are `flatten_value` (a member) and
-- `flatten_item` (an item of an array, which is not entered if it is an array itself).
pub mod Leaves
use webhook_mind.Prelude.{List, String, [], if◌then◌else◌, insert, str_eq, suc, ℕ, ◌<>◌}
use webhook_mind.Json.{Fields, Items, Json, arr, bool, cons, end, member, nil, null, num, obj, str}
use webhook_mind.Json.Sprint.{decimal}

-- `prefix + "." + key`, or `key` at the top.
unfoldable pub full_key : String → String → String
full_key prefix key = if str_eq prefix "" then key else prefix <> "." <> key

-- `fmt.Sprintf("%s[%d]", fullKey, i)`
unfoldable pub item_key : String → ℕ → String
unfolding decimal
item_key full i = full <> "[" <> decimal i <> "]"

unfoldable mutual
  unfolding full_key item_key insert

  pub flatten_recursive : String → Fields → List (String × Json) → List (String × Json)
  flatten_recursive prefix end result = result
  flatten_recursive prefix (member key value fs) result =
      flatten_recursive prefix fs (flatten_value (full_key prefix key) value result)

  flatten_value : String → Json → List (String × Json) → List (String × Json)
  flatten_value full (obj fs) result = flatten_recursive full fs result
  flatten_value full (arr xs) result = flatten_items full 0 xs (insert full (arr xs) result)
  flatten_value full v result = insert full v result

  flatten_items : String → ℕ → Items → List (String × Json) → List (String × Json)
  flatten_items full i nil result = result
  flatten_items full i (cons item xs) result =
      flatten_items full (suc i) xs (flatten_item (item_key full i) item result)

  flatten_item : String → Json → List (String × Json) → List (String × Json)
  flatten_item key (obj fs) result = flatten_recursive key fs result
  flatten_item key item result = insert key item result

unfoldable pub flatten_json : Fields → List (String × Json)
unfolding flatten_recursive
flatten_json payload = flatten_recursive "" payload []

unfoldable pub detect_type : Json → String
detect_type null = "null"
detect_type (str s) = "string"
detect_type (num b) = "number"
detect_type (bool b) = "boolean"
detect_type (obj fs) = "object"
detect_type (arr xs) = "array"
