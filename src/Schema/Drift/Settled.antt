-- ===== src/Schema/Drift/Settled.antt =====
-- A payload that was just folded into the schema shows no drift against it; `deliverEvent` calls
-- `UpdateSchema` and then `CheckDrift` on one payload.
use webhook_mind.Prelude.{
  All, Bool, Distinct, List, Option, String, [], ap, arith, eq_iff, eq_refl, false, if◌then◌else◌,
  is_some, lookup, lookup-All, lookup-insert, none, refl, some, sym, true, ℕ, ◌+◌, ◌||◌, ◌∙◌, ◌∷◌,
  ◌≡◌,
}
use webhook_mind.Json.{Fields, Json}
use webhook_mind.Schema.Types.{
  Faults, FieldSchema, PayloadSchema, SchemaStore, from_row, get_payload_schema,
  insert_drift_events, to_row, upsert_payload_schema,
}
use webhook_mind.Schema.Flatten.{detect_type, flatten_json}
use webhook_mind.Schema.Flatten.Leaves.{flatten_json-Distinct}
use webhook_mind.Schema.Inference.{
  existing_or_fresh, lock_after, observe, observe_field, update_schema,
}
use webhook_mind.Schema.Inference.Observed.{lookup-observe, observe-Distinct, observed}
use webhook_mind.Schema.Inference.Nullable.{faultless, update-unlocked}
use webhook_mind.Schema.Drift.{
  changed_fields, check_drift, drifts_of, field_drift, find_drifts, missing_fields,
}

module _ (now : ℕ) (source_id event_id : String) where
  missing_fields-nil :
      (flat : List (String × Json)) (fields : List (String × FieldSchema))
      → All (λ e. (e.1.nullable || is_some (lookup e.0 flat)) ≡ true) fields
      → missing_fields now source_id event_id flat fields ≡ []
  unfolding missing_fields
  missing_fields-nil flat [] h = refl
  missing_fields-nil flat ((n, f) ∷ fields) h = rw h.0 (missing_fields-nil flat fields h.1)

  changed_fields-nil :
      (fields : List (String × FieldSchema)) (flat : List (String × Json))
      → All (λ e. field_drift now source_id event_id e.0 e.1 (lookup e.0 fields) ≡ []) flat
      → changed_fields now source_id event_id fields flat ≡ []
  unfolding changed_fields
  changed_fields-nil fields [] h = refl
  changed_fields-nil fields ((n, v) ∷ flat) h = rw h.0 (changed_fields-nil fields flat h.1)

  field_drift-observe_field :
      (count : ℕ) (n : String) (v : Json) (before : Option FieldSchema)
      → field_drift now source_id event_id n v (some (observe_field count n v before)) ≡ []
  unfolding field_drift observe_field
  field_drift-observe_field count n v none = rw (eq_refl (unfold detect_type in detect_type v))
  field_drift-observe_field count n v (some f) =
      ground (arith, eq_refl (detect_type v), eq_refl f.type)

  observed_present :
      (count : ℕ) (k : String) (v : Option Json) (before : Option FieldSchema) (f : FieldSchema)
      → observed count k v before ≡ some f
      → (f.nullable || is_some v) ≡ true
  observed_present count k none none f e = cc
  observed_present count k none (some g) f e = ground arith
  observed_present count k (some v) before f e = ground arith

  -- Against the fields that a sample leaves behind, the sample itself shows no drift, even flattened
  -- in another order of its members, if that gives the same value at each path.
  pub find_drifts-observe :
      (payload again : Fields) (e : PayloadSchema)
      → Distinct e.fields
      → ((k : String) → lookup k (flatten_json again) ≡ lookup k (flatten_json payload))
      → find_drifts now source_id event_id
          (observe (flatten_json payload) e).fields
          (flatten_json again)
        ≡ []
  unfolding find_drifts
  find_drifts-observe payload again e d same =
      let flat = flatten_json payload in
      let flat' = flatten_json again in
      rw
        (missing_fields-nil flat' (observe flat e).fields (
          lookup-All _ (observe flat e).fields (observe-Distinct flat e d) (λ k f h. rw (same k) (
            observed_present (e.sample_count + 1) k (lookup k flat) (lookup k e.fields) f
              (sym (lookup-observe k flat e (flatten_json-Distinct payload)) ∙ h)))))
        (changed_fields-nil (observe flat e).fields flat' (
          lookup-All _ flat' (flatten_json-Distinct again) (λ k v h.
            rw (lookup-observe k flat e (flatten_json-Distinct payload), sym (same k) ∙ h)
              (field_drift-observe_field (e.sample_count + 1) k v (lookup k e.fields)))))

get_after_upsert :
    (g : Faults) (now : ℕ) (source_id : String) (e : PayloadSchema) (s : SchemaStore)
    → e.source_id ≡ source_id
    → get_payload_schema g source_id (upsert_payload_schema faultless now e s)
      ≡ (if g.get_fails then none else some (from_row (to_row now e)))
unfolding get_payload_schema upsert_payload_schema
get_after_upsert g now source_id e s same = ground (
  arith,
  lookup-insert e.source_id source_id (to_row now e) s.payload_schemas,
  eq_iff e.source_id source_id,
)

lock_after-fields :
    (min_samples now : ℕ) (e : PayloadSchema) → (lock_after min_samples now e).fields ≡ e.fields
unfolding lock_after
lock_after-fields min_samples now e = ground arith

lock_after-source_id :
    (min_samples now : ℕ) (e : PayloadSchema)
    → (lock_after min_samples now e).source_id ≡ e.source_id
unfolding lock_after
lock_after-source_id min_samples now e = ground arith

-- If a payload is folded into a schema that is not locked yet (so also if this locks it), on a
-- database that does not fail, `CheckDrift` on the same payload returns no drift and records
-- none, whether its own read fails or not. The two range over the payload anew, in orders of their
-- own (`payload` and `again`): the condition is that both orders give the same value at each path.
pub check_drift-update_schema :
    (g : Faults) (now later : ℕ) (source_id event_id : String) (payload again : Fields)
    (min_samples : ℕ) (s : SchemaStore)
    → let e = existing_or_fresh source_id (get_payload_schema faultless source_id s) in
      e.is_locked ≡ false
      → e.source_id ≡ source_id
      → Distinct e.fields
      → ((k : String) → lookup k (flatten_json again) ≡ lookup k (flatten_json payload))
      → let s' = update_schema faultless now source_id payload min_samples s in
        check_drift later source_id event_id g again s' ≡ ([], s')
unfolding check_drift
check_drift-update_schema g now later source_id event_id payload again min_samples s unlocked same d
      paths =
    let e = existing_or_fresh source_id (get_payload_schema faultless source_id s) in
    let next = lock_after min_samples now (observe (flatten_json payload) e) in
    let s' = update_schema faultless now source_id payload min_samples s in
    let none_found : drifts_of later source_id event_id (flatten_json again)
          (get_payload_schema g source_id s')
        ≡ [] =
      rw (update-unlocked source_id min_samples now payload s unlocked) (
        rw
          (get_after_upsert g now source_id next s
            (lock_after-source_id min_samples now _ ∙ unfold observe in same))
          (no_drifts g.get_fails next (
            ap (λ fs. find_drifts later source_id event_id fs (flatten_json again))
              (lock_after-fields min_samples now (observe (flatten_json payload) e))
            ∙ find_drifts-observe later source_id event_id payload again e d paths))) in
    ap (λ ds. (ds, record s' { drift_events = insert_drift_events g 0 ds s'.drift_events }))
      none_found
  where
    no_drifts :
        (fails : Bool) (next : PayloadSchema)
        → find_drifts later source_id event_id next.fields (flatten_json again) ≡ []
        → drifts_of later source_id event_id
            (flatten_json again)
            (if fails then none else some (from_row (to_row now next)))
          ≡ []
    no_drifts true next h = refl
    no_drifts false next h = ground arith
