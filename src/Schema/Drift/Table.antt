-- ===== src/Schema/Drift/Table.antt =====
-- Which drifts `CheckDrift` finds, name by name, and that a payload just learned shows none.
use webhook_mind.Prelude.{
  Bool, Bool-cases, Distinct, List, Option, String, [], append-nil, arith, eq_iff, filter,
  if◌then◌else◌, inl, inr, is_some, lookup, none, refl, some, str_eq, ℕ, ◌++◌, ◌||◌, ◌∷◌, ◌≡◌,
}
use webhook_mind.Json.{Json}
use webhook_mind.Schema.Types.{DriftEvent, FieldSchema}
use webhook_mind.Schema.Flatten.{detect_type}
use webhook_mind.Schema.Drift.{changed_fields, drift, field_drift, find_drifts, missing_fields}

-- The drifts about one field.
unfoldable pub about : String → List DriftEvent → List DriftEvent
about name = filter (λ d. str_eq d.field_name name)

about-append :
    (name : String) (ds es : List DriftEvent)
    → about name (ds ++ es) ≡ about name ds ++ about name es
unfolding about
about-append name [] es = refl
about-append name (d ∷ ds) es = ground (arith, about-append name ds es)

module _ (now : ℕ) (source_id event_id : String) where
  -- What the comments of the source promise for a field of the schema and a value of the payload.
  abbrev pub drift_table : String → Option FieldSchema → Option Json → List DriftEvent
  drift_table name none none = []
  drift_table name (some f) none =
      if f.nullable then [] else drift now source_id event_id "FIELD_MISSING" name f.type "" ∷ []
  drift_table name none (some v) =
      drift now source_id event_id "NEW_FIELD" name "" (detect_type v) ∷ []
  drift_table name (some f) (some v) =
      if str_eq f.type (detect_type v) || str_eq (detect_type v) "null"
      then []
      else drift now source_id event_id "TYPE_CHANGED" name f.type (detect_type v) ∷ []

  abbrev missing_table : String → Option FieldSchema → Bool → List DriftEvent
  missing_table name none present = []
  missing_table name (some f) present =
      if f.nullable || present
      then []
      else drift now source_id event_id "FIELD_MISSING" name f.type "" ∷ []

  about-missing_fields :
      (name : String) (flat : List (String × Json)) (fields : List (String × FieldSchema))
      → Distinct fields
      → about name (missing_fields now source_id event_id flat fields)
        ≡ missing_table name (lookup name fields) (is_some (lookup name flat))
  unfolding about missing_fields lookup
  about-missing_fields name flat [] d = refl
  about-missing_fields name flat ((n, f) ∷ fields) d =
      ground (arith, about-missing_fields name flat fields d.1, eq_iff n name, d.0)

  abbrev changed_table : String → Option FieldSchema → Option Json → List DriftEvent
  changed_table name f none = []
  changed_table name f (some v) = field_drift now source_id event_id name v f

  about-field_drift :
      (name n : String) (v : Json) (f : Option FieldSchema)
      → about name (field_drift now source_id event_id n v f)
        ≡ (if str_eq n name then field_drift now source_id event_id n v f else [])
  unfolding about field_drift
  about-field_drift name n v none = ground arith
  about-field_drift name n v (some f) = ground arith

  about-changed_fields :
      (name : String) (fields : List (String × FieldSchema)) (flat : List (String × Json))
      → Distinct flat
      → about name (changed_fields now source_id event_id fields flat)
        ≡ changed_table name (lookup name fields) (lookup name flat)
  unfolding changed_fields lookup
  about-changed_fields name fields [] d = unfold about in refl
  about-changed_fields name fields ((n, v) ∷ flat) d =
      rw
        (
          about-append name (field_drift now source_id event_id n v (lookup n fields))
              (changed_fields now source_id event_id fields flat),
          about-field_drift name n v (lookup n fields),
          about-changed_fields name fields flat d.1,
        )
        (elim (Bool-cases (str_eq n name)) [
          | inl same ↦
              rw (same, rw ((eq_iff n name).0 same) at d.0, (eq_iff n name).0 same, append-nil _)
          | inr other ↦ rw other
        ])

  -- For each path, the drifts that are found about it are those of the table: one if the schema
  -- and the payload disagree on it, none otherwise. No path stands twice in the schema or payload.
  pub find_drifts_table :
      (name : String) (fields : List (String × FieldSchema)) (flat : List (String × Json))
      → Distinct fields
      → Distinct flat
      → about name (find_drifts now source_id event_id fields flat)
        ≡ drift_table name (lookup name fields) (lookup name flat)
  unfolding find_drifts
  find_drifts_table name fields flat d e =
      rw
        (
          about-append name (missing_fields now source_id event_id flat fields)
              (changed_fields now source_id event_id fields flat),
          about-missing_fields name flat fields d,
          about-changed_fields name fields flat e,
        )
        (both (lookup name fields) (lookup name flat))
    where
      both :
          (f : Option FieldSchema) (v : Option Json)
          → missing_table name f (is_some v) ++ changed_table name f v ≡ drift_table name f v
      both none none = refl
      both (some f) none = ground arith
      both none (some v) = unfold field_drift in refl
      both (some f) (some v) = unfold field_drift in ground arith
