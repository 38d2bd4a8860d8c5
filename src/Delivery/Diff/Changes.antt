-- ===== src/Delivery/Diff/Changes.antt =====
-- What a diff says of each field.
use webhook_mind.Prelude.{
  Bool-cases, Distinct, List, Option, String, [], ap, arith, eq_iff, if◌then◌else◌, inl, inr,
  is_some, lookup, none, not, refl, some, str_eq, sym, ℕ, ◌&&◌, ◌∙◌, ◌∷◌, ◌≡◌,
}
use webhook_mind.Json.{Fields, Json}
use webhook_mind.Json.Sprint.{sprint}
use webhook_mind.Schema.Flatten.{flatten_json}
use webhook_mind.Schema.Flatten.Leaves.{flatten_json-Distinct}
use webhook_mind.Delivery.Diff.{Change, compare_fields, diff_of, gone_fields, note_field}

lookup-gone_fields :
    (k : String) (flat1 flat2 : List (String × Json))
    → lookup k (gone_fields flat1 flat2)
      ≡ (if is_some (lookup k flat1) then none else lookup k flat2)
unfolding lookup gone_fields
lookup-gone_fields k flat1 [] = ground arith
lookup-gone_fields k flat1 ((j, v) ∷ flat2) =
    ground (arith, lookup-gone_fields k flat1 flat2, eq_iff j k)

module _ (format_float : ℕ → String) where
  -- The change of a field from an old value to a new one, either of which may be missing.
  abbrev pub change_of : Option Json → Option Json → Option Change
  change_of none new = none
  change_of (some old) none = none
  change_of (some old) (some new) =
      if str_eq (sprint format_float new) (sprint format_float old)
      then none
      else some (record { old_value = old; new_value = new })

  change_of-none : (old : Option Json) → change_of old none ≡ none
  change_of-none none = refl
  change_of-none (some old) = refl

  abbrev or_else : Option Change → Option Change → Option Change
  or_else none later = later
  or_else (some c) later = some c

  or_else-none : (c : Option Change) → or_else c none ≡ c
  or_else-none none = refl
  or_else-none (some c) = refl

  -- What one round adds for a key.
  note_field_lem :
      (j k : String) (v : Json) (old : Option Json)
      (later : List (String × Json) × List (String × Change))
      → (lookup k (note_field format_float j v old later).0
          ≡ (if str_eq j k && not (is_some old) then some v else lookup k later.0))
        × (lookup k (note_field format_float j v old later).1 ≡ (
            if str_eq j k
            then or_else (change_of old (some v)) (lookup k later.1)
            else lookup k later.1))
  unfolding lookup note_field
  note_field_lem j k v none (added, changed) = ground arith
  note_field_lem j k v (some old) (added, changed) = ground arith

  compare_fields_lem :
      (k : String) (flat1 flat2 : List (String × Json))
      → Distinct flat1
      → (lookup k (compare_fields format_float flat2 flat1).0
          ≡ (if is_some (lookup k flat2) then none else lookup k flat1))
        × (lookup k (compare_fields format_float flat2 flat1).1
            ≡ change_of (lookup k flat2) (lookup k flat1))
  unfolding lookup compare_fields
  compare_fields_lem k [] flat2 d = (ground arith, ground arith)
  compare_fields_lem k ((j, v) ∷ flat1) flat2 (absent, d) =
      let (added, changed) =
        note_field_lem j k v (lookup j flat2) (compare_fields format_float flat2 flat1) in
      let (added', changed') = compare_fields_lem k flat1 flat2 d in
      elim (Bool-cases (str_eq j k)) [
        | inl same ↦
            let e : j ≡ k = (eq_iff j k).0 same in
            let old : lookup j flat2 ≡ lookup k flat2 = ap (λ x. lookup x flat2) e in
            let unseen : lookup k flat1 ≡ none = ap (λ x. lookup x flat1) (sym e) ∙ absent in
            let no_change : lookup k (compare_fields format_float flat2 flat1).1 ≡ none =
              changed' ∙ ap (change_of (lookup k flat2)) unseen ∙ change_of-none (lookup k flat2) in
            (
              ground arith,
              rw same (
                  (rw same at changed)
                  ∙ ap (or_else (change_of (lookup j flat2) (some v))) no_change
                  ∙ or_else-none (change_of (lookup j flat2) (some v))
                  ∙ ap (λ o. change_of o (some v)) old),
            )
        | inr other ↦ (ground arith, rw other ((rw other at changed) ∙ changed'))
      ]

  -- Of each path of the two payloads: it is added if only the current one has it, removed if only
  -- the previous one has it, and changed, with both values, if both have it and `%v` prints the
  -- values differently.
  pub diff_of_lem :
      (k : String) (current previous : Fields)
      → let new = lookup k (flatten_json current) in
        let old = lookup k (flatten_json previous) in
        (lookup k (diff_of format_float current previous).added
          ≡ (if is_some old then none else new))
        × (lookup k (diff_of format_float current previous).removed
            ≡ (if is_some new then none else old))
        × (lookup k (diff_of format_float current previous).changed ≡ change_of old new)
  unfolding diff_of
  diff_of_lem k current previous =
      let (added, changed) =
        compare_fields_lem k (flatten_json current) (flatten_json previous)
          (flatten_json-Distinct current) in
      (added, lookup-gone_fields k (flatten_json current) (flatten_json previous), changed)
