-- ===== src/Schema/Inference/Observed.antt =====
-- What one sample does to the field that stands under a given name.
use webhook_mind.Prelude.{
  Bool, Distinct, List, Option, String, [], arith, eq_iff, if◌then◌else◌, insert, insert-Distinct,
  is_some, lookup, lookup-insert, none, refl, some, true, ℕ, ◌+◌, ◌∷◌, ◌≡◌,
}
use webhook_mind.Json.{Json}
use webhook_mind.Schema.Types.{FieldSchema, PayloadSchema}
use webhook_mind.Schema.Inference.{add_fields, mark_absent, observe, observe_field}

-- The field after a sample, from the field before and the value in the sample.
abbrev pub observed : ℕ → String → Option Json → Option FieldSchema → Option FieldSchema
observed count name none none = none
observed count name none (some f) = some (record f { nullable = true })
observed count name (some v) before = some (observe_field count name v before)

abbrev marked : Bool → Option FieldSchema → Option FieldSchema
marked present none = none
marked present (some f) = some (if present then f else record f { nullable = true })

lookup-mark_absent :
    (k : String) (flat : List (String × Json)) (fields : List (String × FieldSchema))
    → lookup k (mark_absent flat fields) ≡ marked (is_some (lookup k flat)) (lookup k fields)
unfolding mark_absent lookup
lookup-mark_absent k flat [] = refl
lookup-mark_absent k flat ((name, f) ∷ fields) =
    ground (arith, lookup-mark_absent k flat fields, eq_iff name k)

mark_absent-Distinct :
    (flat : List (String × Json)) (fields : List (String × FieldSchema))
    → Distinct fields
    → Distinct (mark_absent flat fields)
unfolding mark_absent
mark_absent-Distinct flat [] d = tt
mark_absent-Distinct flat ((name, f) ∷ fields) d =
    (ground (arith, lookup-mark_absent name flat fields, d.0), mark_absent-Distinct flat fields d.1)

abbrev added : ℕ → String → Option Json → Option FieldSchema → Option FieldSchema
added count k none before = before
added count k (some v) before = some (observe_field count k v before)

lookup-add_fields :
    (count : ℕ) (k : String) (flat : List (String × Json)) (fields : List (String × FieldSchema))
    → Distinct flat
    → lookup k (add_fields count flat fields) ≡ added count k (lookup k flat) (lookup k fields)
unfolding add_fields lookup
lookup-add_fields count k [] fields d = refl
lookup-add_fields count k ((name, v) ∷ flat) fields d =
    let new = observe_field count name v (lookup name fields) in
    ground (
      arith,
      lookup-add_fields count k flat (insert name new fields) d.1,
      lookup-insert name k new fields,
      eq_iff name k,
      d.0,
    )

add_fields-Distinct :
    (count : ℕ) (flat : List (String × Json)) (fields : List (String × FieldSchema))
    → Distinct fields
    → Distinct (add_fields count flat fields)
unfolding add_fields
add_fields-Distinct count [] fields d = d
add_fields-Distinct count ((name, v) ∷ flat) fields d =
    add_fields-Distinct count flat _ (insert-Distinct name _ fields d)

pub observe-Distinct :
    (flat : List (String × Json)) (e : PayloadSchema)
    → Distinct e.fields
    → Distinct (observe flat e).fields
unfolding observe
observe-Distinct flat e d =
    add_fields-Distinct (e.sample_count + 1) flat _ (mark_absent-Distinct flat e.fields d)

-- A sample changes each field as `observed` says: by its own value, and by nothing else.
pub lookup-observe :
    (k : String) (flat : List (String × Json)) (e : PayloadSchema)
    → Distinct flat
    → lookup k (observe flat e).fields
      ≡ observed (e.sample_count + 1) k (lookup k flat) (lookup k e.fields)
unfolding observe
lookup-observe k flat e d =
    rw
      (
        lookup-add_fields (e.sample_count + 1) k flat (mark_absent flat e.fields) d,
        lookup-mark_absent k flat e.fields,
      )
      (observed_of_parts (lookup k flat) (lookup k e.fields))
  where
    observed_of_parts :
        (v : Option Json) (before : Option FieldSchema)
        → added (e.sample_count + 1) k v (marked (is_some v) before)
          ≡ observed (e.sample_count + 1) k v before
    observed_of_parts none none = refl
    observed_of_parts none (some f) = refl
    observed_of_parts (some v) none = refl
    observed_of_parts (some v) (some f) = refl
