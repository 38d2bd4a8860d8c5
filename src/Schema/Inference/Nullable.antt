-- ===== src/Schema/Inference/Nullable.antt =====
-- What the inferred schema says of a source after a run of `UpdateSchema` calls on its payloads.
use webhook_mind.Prelude.{
  Bool, Distinct, List, Option, String, [], all, any, ap, arith, eq_iff, false, is_some, leb,
  length, lookup, lookup-insert, none, not, refl, some, true, ℕ, ◌+◌, ◌<◌, ◌∙◌, ◌∷◌, ◌≡◌, ◌≤◌,
}
use webhook_mind.Json.{Fields, Json}
use webhook_mind.Schema.Types.{
  Faults, FieldSchema, PayloadSchema, SchemaStore, from_row, get_payload_schema, to_row,
  upsert_payload_schema,
}
use webhook_mind.Schema.Flatten.{flatten_json}
use webhook_mind.Schema.Flatten.Leaves.{flatten_json-Distinct}
use webhook_mind.Schema.Inference.{
  existing_or_fresh, lock_after, observe, observe_field, update_schema,
}
use webhook_mind.Schema.Inference.Observed.{lookup-observe, observe-Distinct, observed}

-- A database that fails nowhere.
abbrev pub faultless : Faults
faultless = record { get_fails = false; upsert_fails = false; insert_fails = λ i. false }

abbrev pub empty_store : SchemaStore
empty_store = record { payload_schemas = []; drift_events = [] }

pub get-upsert :
    (now : ℕ) (source_id : String) (e : PayloadSchema) (s : SchemaStore)
    → e.source_id ≡ source_id
    → get_payload_schema faultless source_id (upsert_payload_schema faultless now e s)
      ≡ some (from_row (to_row now e))
unfolding get_payload_schema upsert_payload_schema
get-upsert now source_id e s same = ground (
  arith,
  lookup-insert e.source_id source_id (to_row now e) s.payload_schemas,
  eq_iff e.source_id source_id,
)

-- Does a payload have a leaf at this path?
unfoldable pub has : String → ℕ × Fields → Bool
has k (now, payload) = is_some (lookup k (flatten_json payload))

module _ (source_id : String) (min_samples : ℕ) where
  -- The store after `UpdateSchema` on each payload, the latest at the head, with its time.
  unfoldable pub learned : List (ℕ × Fields) → SchemaStore
  learned [] = empty_store
  learned ((now, payload) ∷ ps) =
      update_schema faultless now source_id payload min_samples (learned ps)

  -- The schema that the next call works on.
  unfoldable pub current : List (ℕ × Fields) → PayloadSchema
  unfolding learned
  current ps = existing_or_fresh source_id (get_payload_schema faultless source_id (learned ps))

-- What a field entry, or its absence, says of the payloads.
abbrev pub Describes : String → List (ℕ × Fields) → Option FieldSchema → Type 0
Describes k ps none = any (has k) ps ≡ false
Describes k ps (some f) = (any (has k) ps ≡ true) × (f.nullable ≡ not (all (has k) ps))

record Learned (source_id : String) (min_samples : ℕ) (ps : List (ℕ × Fields)) (e : PayloadSchema)
    : Type 0 where
  counted : e.sample_count ≡ length ps
  source : e.source_id ≡ source_id
  locked : e.is_locked ≡ leb min_samples (length ps)
  distinct : Distinct e.fields
  described : (k : String) → Describes k ps (lookup k e.fields)

observe_field-Describes :
    (k : String) (p : ℕ × Fields) (ps : List (ℕ × Fields)) (v : Option Json)
    (f : Option FieldSchema)
    → has k p ≡ is_some v
    → Describes k ps f
    → Describes k (p ∷ ps) (observed (length ps + 1) k v f)
unfolding observe_field
observe_field-Describes k p ps none none h d = ground arith
observe_field-Describes k p ps none (some f) h d = ground arith
observe_field-Describes k p [] (some v) none h d = ground arith
observe_field-Describes k p (q ∷ ps) (some v) none h d = ground arith
observe_field-Describes k p ps (some v) (some f) h d = ground arith

observe-Learned :
    (source_id : String) (min_samples now : ℕ) (payload : Fields) (ps : List (ℕ × Fields))
    (e : PayloadSchema)
    → Learned source_id min_samples ps e
    → length ps < min_samples
    → Learned source_id min_samples
        ((now, payload) ∷ ps)
        (from_row (to_row now (lock_after min_samples now (observe (flatten_json payload) e))))
unfolding lock_after
observe-Learned source_id min_samples now payload ps e l short = record {
  counted = unfold observe in ground (arith, l.counted);
  source = unfold observe in ground (arith, l.source);
  locked = unfold observe in ground (arith, l.counted, l.locked);
  distinct = rw same (observe-Distinct (flatten_json payload) e l.distinct);
  described = λ k.
      rw
        (same, lookup-observe k (flatten_json payload) e (flatten_json-Distinct payload), l.counted)
        (observe_field-Describes k (now, payload) ps (lookup k (flatten_json payload))
          (lookup k e.fields) (unfold has in refl) (l.described k));
}
  where
    same :
        (lock_after min_samples now (observe (flatten_json payload) e)).fields
        ≡ (observe (flatten_json payload) e).fields
    same = ground arith

pub update-unlocked :
    (source_id : String) (min_samples now : ℕ) (payload : Fields) (s : SchemaStore)
    → let e = existing_or_fresh source_id (get_payload_schema faultless source_id s) in
      e.is_locked ≡ false
      → update_schema faultless now source_id payload min_samples s
        ≡ upsert_payload_schema faultless now
            (lock_after min_samples now (observe (flatten_json payload) e))
            s
unfolding update_schema
update-unlocked source_id min_samples now payload s unlocked = rw unlocked

update-current :
    (source_id : String) (min_samples now : ℕ) (payload : Fields) (ps : List (ℕ × Fields))
    → (current source_id min_samples ps).is_locked ≡ false
    → (current source_id min_samples ps).source_id ≡ source_id
    → current source_id min_samples ((now, payload) ∷ ps)
      ≡ from_row (
          to_row now (
            lock_after min_samples now
              (observe (flatten_json payload) (current source_id min_samples ps))))
unfolding current
update-current source_id min_samples now payload ps unlocked same =
    let e = current source_id min_samples ps in
    let next = lock_after min_samples now (observe (flatten_json payload) e) in
    ap (existing_or_fresh source_id) (
      ap (get_payload_schema faultless source_id) (
        update-unlocked source_id min_samples now payload (learned source_id min_samples ps)
          unlocked)
      ∙ get-upsert now source_id next (learned source_id min_samples ps)
          (unfold lock_after observe in ground arith))

current-Learned :
    (source_id : String) (min_samples : ℕ) (ps : List (ℕ × Fields))
    → 1 ≤ min_samples
    → length ps ≤ min_samples
    → Learned source_id min_samples ps (current source_id min_samples ps)
current-Learned source_id min_samples [] pos short =
    unfold current get_payload_schema lookup in
    record {
      counted = refl;
      source = refl;
      locked = ground arith;
      distinct = tt;
      described = λ k. refl;
    }
current-Learned source_id min_samples ((now, payload) ∷ ps) pos short =
    let l = current-Learned source_id min_samples ps pos (omega arith) in
    rw (update-current source_id min_samples now payload ps (ground (arith, l.locked)) l.source) (
      observe-Learned source_id min_samples now payload ps (current source_id min_samples ps) l
        (omega arith))

-- As long as at most `min_samples` payloads of a source were folded in (and `min_samples` is at
-- least 1), with a database that fails nowhere: the schema counts the payloads, it is locked
-- exactly when their number reaches `min_samples`, it has a field for just the paths that some
-- payload has, and a field is nullable exactly when some payload lacks it.
pub learned_fields :
    (source_id : String) (min_samples : ℕ) (ps : List (ℕ × Fields))
    → 1 ≤ min_samples
    → length ps ≤ min_samples
    → let e = current source_id min_samples ps in
      (e.sample_count ≡ length ps)
      × (e.is_locked ≡ leb min_samples (length ps))
      × ((k : String) → Describes k ps (lookup k e.fields))
learned_fields source_id min_samples ps pos short =
    let l = current-Learned source_id min_samples ps pos short in (l.counted, l.locked, l.described)

-- A locked schema is never written again, as long as it can be read.
pub update-locked :
    (f : Faults) (now : ℕ) (source_id : String) (payload : Fields) (min_samples : ℕ)
    (s : SchemaStore) (e : PayloadSchema)
    → get_payload_schema f source_id s ≡ some e
    → e.is_locked ≡ true
    → update_schema f now source_id payload min_samples s ≡ s
unfolding update_schema
update-locked f now source_id payload min_samples s e found locked = rw (found, locked)
