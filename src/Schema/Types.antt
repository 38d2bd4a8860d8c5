-- ===== src/Schema/Types.antt =====
-- internal/schema/types.go, and the tables `payload_schemas` and `drift_events` that
-- internal/store/postgres.go keeps them in. Times are Unix seconds.
use webhook_mind.Prelude.{
  Bool, List, Option, String, [], if◌then◌else◌, insert, lookup, none, some, suc, ℕ, ◌++◌, ◌∷◌,
}
use webhook_mind.Json.{Json}

pub record FieldSchema : Type 0 where
  pub name : String
  pub type : String
  pub nullable : Bool
  pub examples : List Json

pub record PayloadSchema : Type 0 where
  pub source_id : String
  pub fields : List (String × FieldSchema)
  pub sample_count : ℕ
  pub inferred_at : ℕ
  pub version : ℕ
  pub is_locked : Bool

-- `ID` and `Details` are never set by the program, and left out.
pub record DriftEvent : Type 0 where
  pub event_id : String
  pub source_id : String
  pub drift_type : String
  pub field_name : String
  pub expected_type : String
  pub actual_type : String
  pub detected_at : ℕ

-- A row of `payload_schemas`. `InferredAt` is not written; the row's time is read back for it.
pub record SchemaRow : Type 0 where
  pub source_id : String
  pub fields : List (String × FieldSchema)
  pub sample_count : ℕ
  pub version : ℕ
  pub is_locked : Bool
  pub updated_at : ℕ

pub record SchemaStore : Type 0 where
  pub payload_schemas : List (String × SchemaRow)
  pub drift_events : List DriftEvent

-- Which calls of the database fail: a read, an upsert, and the insertion of the i-th drift.
pub record Faults : Type 0 where
  pub get_fails : Bool
  pub upsert_fails : Bool
  pub insert_fails : ℕ → Bool

abbrev pub from_row : SchemaRow → PayloadSchema
from_row r = record {
  source_id = r.source_id;
  fields = r.fields;
  sample_count = r.sample_count;
  inferred_at = r.updated_at;
  version = r.version;
  is_locked = r.is_locked;
}

abbrev pub to_row : ℕ → PayloadSchema → SchemaRow
to_row now e = record {
  source_id = e.source_id;
  fields = e.fields;
  sample_count = e.sample_count;
  version = e.version;
  is_locked = e.is_locked;
  updated_at = now;
}

-- `GetPayloadSchema`; `none` is its error, also where there is no row.
unfoldable pub get_payload_schema : Faults → String → SchemaStore → Option PayloadSchema
unfolding lookup
get_payload_schema f source_id s =
    if f.get_fails
    then none
    else elim (lookup source_id s.payload_schemas) [ none ↦ none | some r ↦ some (from_row r) ]

-- `UpsertPayloadSchema`; its error is only logged.
unfoldable pub upsert_payload_schema : Faults → ℕ → PayloadSchema → SchemaStore → SchemaStore
unfolding insert
upsert_payload_schema f now e s =
    if f.upsert_fails
    then s
    else record s { payload_schemas = insert e.source_id (to_row now e) s.payload_schemas }

-- The loop that persists drifts; an error of `InsertDriftEvent` is only logged.
unfoldable pub insert_drift_events :
    Faults → ℕ → List DriftEvent → List DriftEvent → List DriftEvent
insert_drift_events f i [] table = table
insert_drift_events f i (d ∷ ds) table =
    insert_drift_events f (suc i) ds (if f.insert_fails i then table else table ++ d ∷ [])
