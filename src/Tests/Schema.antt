-- ===== src/Tests/Schema.antt =====
-- Runs of flattening, inference and drift detection.
use webhook_mind.Prelude.{
  List, String, [], arith, eq_iff, false, lookup, refl, some, true, ℕ, ◌∷◌, ◌≡◌,
}
use webhook_mind.Json.{Fields, arr, cons, end, member, nil, num, obj, str}
use webhook_mind.Schema.Types.{Faults, get_payload_schema}
use webhook_mind.Schema.Flatten.{flatten_json}
use webhook_mind.Schema.Flatten.Leaves.{
  flatten_json-Distinct, last_value, leaves, lookup-flatten_json,
}
use webhook_mind.Schema.Inference.{add_fields, update_schema}
use webhook_mind.Schema.Inference.Nullable.{
  Describes, current, empty_store, faultless, learned, learned_fields,
}
use webhook_mind.Schema.Inference.Reset.{update-failed_read}
use webhook_mind.Schema.Drift.{check_drift, drift, find_drifts}
use webhook_mind.Schema.Drift.Table.{about, drift_table, find_drifts_table}
use webhook_mind.Schema.Drift.Settled.{check_drift-update_schema}

-- {"order": {"id": "A1"}, "items": [{"sku": "x"}, "y"]}
abbrev order : Fields
order =
    member "order" (obj (member "id" (str "A1") end))
      (member "items" (arr (cons (obj (member "sku" (str "x") end)) (cons (str "y") nil))) end)

-- {"order": {"id": 1}}
abbrev later_order : Fields
later_order = member "order" (obj (member "id" (num 1) end)) end

flatten_order :
    flatten_json order
    ≡ ("order.id", str "A1")
      ∷ ("items", arr (cons (obj (member "sku" (str "x") end)) (cons (str "y") nil)))
      ∷ ("items[0].sku", str "x")
      ∷ ("items[1]", str "y")
      ∷ []
unfolding flatten_json
flatten_order = refl

lookup-flatten_json_example :
    lookup "order.id" (flatten_json order) ≡ last_value "order.id" (leaves "" order)
lookup-flatten_json_example = lookup-flatten_json "order.id" order

abbrev samples : List (ℕ × Fields)
samples = (20, later_order) ∷ (10, order) ∷ []

learned_fields_example :
    let e = current "shop" 3 samples in
    (e.sample_count ≡ 2)
    × (e.is_locked ≡ false)
    × ((k : String) → Describes k samples (lookup k e.fields))
learned_fields_example = learned_fields "shop" 3 samples (omega arith) (omega arith)

items_nullable :
    lookup "items" (current "shop" 3 samples).fields
    ≡ some
        (record { name = "items"; type = "array"; nullable = true; examples = str "[array]" ∷ [] })
unfolding current lookup update_schema
items_nullable = refl

find_drifts_table_example :
    about "order.id"
      (find_drifts 5 "shop" "e1" (current "shop" 3 samples).fields (flatten_json order))
    ≡ drift_table 5 "shop" "e1" "order.id"
        (lookup "order.id" (current "shop" 3 samples).fields)
        (lookup "order.id" (flatten_json order))
unfolding current lookup update_schema
find_drifts_table_example =
    find_drifts_table 5 "shop" "e1" "order.id" (current "shop" 3 samples).fields
      (flatten_json order) (refl, (refl, (refl, (refl, tt)))) (flatten_json-Distinct order)

order_drifts :
    find_drifts 5 "shop" "e1"
      (current "shop" 1 ((10, order) ∷ [])).fields
      (flatten_json later_order)
    ≡ drift 5 "shop" "e1" "FIELD_MISSING" "items" "array" ""
      ∷ drift 5 "shop" "e1" "FIELD_MISSING" "items[0].sku" "string" ""
      ∷ drift 5 "shop" "e1" "FIELD_MISSING" "items[1]" "string" ""
      ∷ drift 5 "shop" "e1" "TYPE_CHANGED" "order.id" "string" "number"
      ∷ []
unfolding current lookup update_schema find_drifts
order_drifts = refl

-- The same object, ranged over the other way round.
abbrev order_again : Fields
order_again =
    member "items" (arr (cons (obj (member "sku" (str "x") end)) (cons (str "y") nil)))
      (member "order" (obj (member "id" (str "A1") end)) end)

order_paths : (k : String) → lookup k (flatten_json order_again) ≡ lookup k (flatten_json order)
unfolding flatten_json lookup
order_paths k = ground (
  arith,
  eq_iff "order.id" k,
  eq_iff "items" k,
  eq_iff "items[0].sku" k,
  eq_iff "items[1]" k,
  eq_iff "order.id" "items",
  eq_iff "order.id" "items[0].sku",
  eq_iff "order.id" "items[1]",
)

check_drift-update_schema_example :
    let s' = update_schema faultless 7 "shop" order 1 empty_store in
    check_drift 8 "shop" "e1" faultless order_again s' ≡ ([], s')
unfolding get_payload_schema
check_drift-update_schema_example =
    check_drift-update_schema faultless 7 8 "shop" "e1" order order_again 1 empty_store refl refl tt
      order_paths

-- Two members with one path: the order of the range decides, and a drift is found.
abbrev twice : Fields
twice = member "a.b" (num 1) (member "a" (obj (member "b" (str "x") end)) end)

abbrev twice_again : Fields
twice_again = member "a" (obj (member "b" (str "x") end)) (member "a.b" (num 1) end)

twice_drifts :
    (check_drift 8 "shop" "e1" faultless twice_again
      (update_schema faultless 7 "shop" twice 1 empty_store)).0
    ≡ drift 8 "shop" "e1" "TYPE_CHANGED" "a.b" "string" "number" ∷ []
unfolding check_drift update_schema
twice_drifts = refl

abbrev unreadable : Faults
unreadable = record { get_fails = true; upsert_fails = false; insert_fails = λ i. false }

update-failed_read_example :
    get_payload_schema faultless "shop"
      (update_schema unreadable 30 "shop" later_order 2 (learned "shop" 2 samples))
    ≡ some (record {
      source_id = "shop";
      fields = add_fields 1 (flatten_json later_order) [];
      sample_count = 1;
      inferred_at = 30;
      version = 1;
      is_locked = false;
    })
update-failed_read_example =
    update-failed_read unreadable 30 "shop" later_order 2 (learned "shop" 2 samples) refl refl
