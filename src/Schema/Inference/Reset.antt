-- ===== src/Schema/Inference/Reset.antt =====
-- What `UpdateSchema` does where it cannot read the schema that is there.
use webhook_mind.Prelude.{
  Bool-cases, List, String, [], ap, arith, false, inl, inr, leb, none, some, true, ℕ, ◌∙◌, ◌≡◌,
}
use webhook_mind.Json.{Fields, Json}
use webhook_mind.Schema.Types.{
  Faults, PayloadSchema, SchemaStore, from_row, get_payload_schema, to_row, upsert_payload_schema,
}
use webhook_mind.Schema.Flatten.{flatten_json}
use webhook_mind.Schema.Inference.{add_fields, fresh, lock_after, observe, update_schema}
use webhook_mind.Schema.Inference.Nullable.{faultless, get-upsert}

get_failed :
    (f : Faults) (source_id : String) (s : SchemaStore)
    → f.get_fails ≡ true
    → get_payload_schema f source_id s ≡ none
unfolding get_payload_schema
get_failed f source_id s gone = ground arith

upsert_written :
    (f : Faults) (now : ℕ) (e : PayloadSchema) (s : SchemaStore)
    → f.upsert_fails ≡ false
    → upsert_payload_schema f now e s ≡ upsert_payload_schema faultless now e s
unfolding upsert_payload_schema
upsert_written f now e s written = ground arith

first_sample :
    (now : ℕ) (source_id : String) (flat : List (String × Json)) (min_samples : ℕ)
    → from_row (to_row now (lock_after min_samples now (observe flat (fresh source_id)))) ≡ record {
      source_id = source_id;
      fields = add_fields 1 flat [];
      sample_count = 1;
      inferred_at = now;
      version = 1;
      is_locked = leb min_samples 1;
    }
unfolding lock_after observe
first_sample now source_id flat min_samples = elim (Bool-cases (leb min_samples 1)) [
  | inl enough ↦ rw enough
  | inr more ↦ rw more
]

-- Whatever schema the store holds for a source, locked or not: if the read fails and the write
-- succeeds, a schema with one sample and just this payload's fields takes its place, locked only if
-- one sample is enough.
pub update-failed_read :
    (f : Faults) (now : ℕ) (source_id : String) (payload : Fields) (min_samples : ℕ)
    (s : SchemaStore)
    → f.get_fails ≡ true
    → f.upsert_fails ≡ false
    → get_payload_schema faultless source_id (update_schema f now source_id payload min_samples s)
      ≡ some (record {
        source_id = source_id;
        fields = add_fields 1 (flatten_json payload) [];
        sample_count = 1;
        inferred_at = now;
        version = 1;
        is_locked = leb min_samples 1;
      })
unfolding update_schema
update-failed_read f now source_id payload min_samples s gone written =
    let next = lock_after min_samples now (observe (flatten_json payload) (fresh source_id)) in
    rw (get_failed f source_id s gone, upsert_written f now next s written)
      (get-upsert now source_id next s (unfold lock_after observe in ground arith)
        ∙ ap some (first_sample now source_id (flatten_json payload) min_samples))
