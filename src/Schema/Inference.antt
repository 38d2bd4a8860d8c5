-- ===== src/Schema/Inference.antt =====
-- internal/schema/inference.go: `UpdateSchema` and `truncateExample`.
pub mod Observed
pub mod Nullable
pub mod Reset
use Prim.Native.String.{len, slice}
use webhook_mind.Prelude.{
  List, Option, String, [], false, if◌then◌else◌, insert, is_some, leb, length, lookup, ltb, none,
  not, some, str_eq, true, ℕ, ◌&&◌, ◌++◌, ◌+◌, ◌<>◌, ◌∷◌,
}
use webhook_mind.Json.{Fields, Json, arr, obj, str}
use webhook_mind.Schema.Flatten.{detect_type, flatten_json}
use webhook_mind.Schema.Types.{
  Faults, FieldSchema, PayloadSchema, SchemaStore, get_payload_schema, upsert_payload_schema,
}

-- `s[:100]` cuts bytes; where that splits a character, `slice` leaves the character out and Go
-- keeps its first bytes.
unfoldable pub truncate_example : Json → Json
truncate_example (str s) = str (if ltb 100 (len s) then slice s 0 100 <> "..." else s)
truncate_example (arr xs) = str "[array]"
truncate_example (obj fs) = str "[object]"
truncate_example v = v

-- The loop that marks the fields which a payload lacks.
unfoldable pub mark_absent :
    List (String × Json) → List (String × FieldSchema) → List (String × FieldSchema)
unfolding lookup
mark_absent flat [] = []
mark_absent flat ((name, field) ∷ fields) =
    (name, if is_some (lookup name flat) then field else record field { nullable = true })
    ∷ mark_absent flat fields

-- What a further observation of a known field changes.
unfoldable pub merge_field : FieldSchema → Json → FieldSchema
unfolding truncate_example detect_type
merge_field field value =
    let field_type = detect_type value in
    record field {
      type =
          if not (str_eq field.type field_type) && not (str_eq field_type "null")
          then field_type
          else field.type;
      examples =
          if ltb (length field.examples) 3
          then field.examples ++ truncate_example value ∷ []
          else field.examples;
    }

-- A field seen for the first time, in the `sample_count`-th payload.
unfoldable pub new_field : ℕ → String → Json → FieldSchema
unfolding truncate_example detect_type
new_field sample_count name value = record {
  name = name;
  type = detect_type value;
  nullable = ltb 1 sample_count;
  examples = truncate_example value ∷ [];
}

unfoldable pub observe_field : ℕ → String → Json → Option FieldSchema → FieldSchema
unfolding merge_field new_field
observe_field sample_count name value (some field) = merge_field field value
observe_field sample_count name value none = new_field sample_count name value

-- The loop over the payload's fields.
unfoldable pub add_fields :
    ℕ → List (String × Json) → List (String × FieldSchema) → List (String × FieldSchema)
unfolding insert lookup observe_field
add_fields sample_count [] fields = fields
add_fields sample_count ((name, value) ∷ flat) fields =
    add_fields sample_count flat
      (insert name (observe_field sample_count name value (lookup name fields)) fields)

-- One sample counted and its fields folded in.
unfoldable pub observe : List (String × Json) → PayloadSchema → PayloadSchema
unfolding mark_absent add_fields
observe flat e = record e {
  sample_count = e.sample_count + 1;
  fields = add_fields (e.sample_count + 1) flat (mark_absent flat e.fields);
}

unfoldable pub lock_after : ℕ → ℕ → PayloadSchema → PayloadSchema
lock_after min_samples now e =
    if leb min_samples e.sample_count && not e.is_locked
    then record e { is_locked = true; inferred_at = now }
    else e

-- The schema that `UpdateSchema` starts from when the read fails.
abbrev pub fresh : String → PayloadSchema
fresh source_id = record {
  source_id = source_id;
  fields = [];
  sample_count = 0;
  inferred_at = 0;
  version = 1;
  is_locked = false;
}

abbrev pub existing_or_fresh : String → Option PayloadSchema → PayloadSchema
existing_or_fresh source_id none = fresh source_id
existing_or_fresh source_id (some e) = e

-- `UpdateSchema`; a negative `minSamples` acts as 0 does.
unfoldable pub update_schema : Faults → ℕ → String → Fields → ℕ → SchemaStore → SchemaStore
unfolding get_payload_schema upsert_payload_schema flatten_json observe lock_after
update_schema f now source_id payload min_samples s =
    let flat = flatten_json payload in
    let existing = existing_or_fresh source_id (get_payload_schema f source_id s) in
    if existing.is_locked
    then s
    else upsert_payload_schema f now (lock_after min_samples now (observe flat existing)) s
