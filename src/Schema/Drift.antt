-- ===== src/Schema/Drift.antt =====
-- internal/schema/drift.go: `CheckDrift`.
pub mod Table
pub mod Settled
use webhook_mind.Prelude.{
  List, Option, String, [], if◌then◌else◌, is_some, lookup, none, not, some, str_eq, ℕ, ◌&&◌, ◌++◌,
  ◌||◌, ◌∷◌,
}
use webhook_mind.Json.{Fields, Json}
use webhook_mind.Schema.Flatten.{detect_type, flatten_json}
use webhook_mind.Schema.Types.{
  DriftEvent, Faults, FieldSchema, PayloadSchema, SchemaStore, get_payload_schema,
  insert_drift_events,
}

module _ (now : ℕ) (source_id event_id : String) where
  -- The drift of one kind at one field.
  abbrev pub drift : String → String → String → String → DriftEvent
  drift drift_type field_name expected_type actual_type = record {
    event_id = event_id;
    source_id = source_id;
    drift_type = drift_type;
    field_name = field_name;
    expected_type = expected_type;
    actual_type = actual_type;
    detected_at = now;
  }

  -- The loop over the schema's fields.
  unfoldable pub missing_fields :
      List (String × Json) → List (String × FieldSchema) → List DriftEvent
  unfolding lookup
  missing_fields flat [] = []
  missing_fields flat ((name, field) ∷ fields) =
      if field.nullable || is_some (lookup name flat)
      then missing_fields flat fields
      else drift "FIELD_MISSING" name field.type "" ∷ missing_fields flat fields

  -- One round of the loop over the payload's fields.
  unfoldable pub field_drift : String → Json → Option FieldSchema → List DriftEvent
  unfolding detect_type
  field_drift name value (some field) =
      if not (str_eq field.type (detect_type value)) && not (str_eq (detect_type value) "null")
      then drift "TYPE_CHANGED" name field.type (detect_type value) ∷ []
      else []
  field_drift name value none = drift "NEW_FIELD" name "" (detect_type value) ∷ []

  unfoldable pub changed_fields :
      List (String × FieldSchema) → List (String × Json) → List DriftEvent
  unfolding lookup field_drift
  changed_fields fields [] = []
  changed_fields fields ((name, value) ∷ flat) =
      field_drift name value (lookup name fields) ++ changed_fields fields flat

  unfoldable pub find_drifts : List (String × FieldSchema) → List (String × Json) → List DriftEvent
  unfolding missing_fields changed_fields
  find_drifts fields flat = missing_fields flat fields ++ changed_fields fields flat

  abbrev pub drifts_of : List (String × Json) → Option PayloadSchema → List DriftEvent
  drifts_of flat none = []
  drifts_of flat (some e) = if e.is_locked then find_drifts e.fields flat else []

  -- `CheckDrift`: the drifts that it returns, and the store after they are recorded.
  unfoldable pub check_drift : Faults → Fields → SchemaStore → List DriftEvent × SchemaStore
  unfolding get_payload_schema flatten_json find_drifts insert_drift_events
  check_drift f payload s =
      let drifts = drifts_of (flatten_json payload) (get_payload_schema f source_id s) in
      (drifts, record s { drift_events = insert_drift_events f 0 drifts s.drift_events })
