-- ===== src/Routing.antt =====
-- internal/routing: conditions on the flat payload (evaluator.go) and the choice of destinations
-- (engine.go), over the two tables that internal/store/postgres.go reads for it. What `%v` writes
-- for a float64, `strconv.ParseFloat` and `json.Unmarshal` are parameters.
pub mod Conditions
pub mod Choice
use text.Mathlib.Text.{find?}
use webhook_mind.Prelude.{
  Bool, List, Option, String, [], false, filter, if◌then◌else◌, insert, is_empty, is_some, leb,
  lookup, none, not, some, str_eq, true, ℕ, ◌&&◌, ◌||◌, ◌∷◌,
}
use webhook_mind.Json.{Fields, Json, num, str}
use webhook_mind.Json.Number.{float_le, float_lt}
use webhook_mind.Json.Sprint.{sprint}
use webhook_mind.Schema.Flatten.{flatten_json}

pub record Condition : Type 0 where
  pub field : String
  pub operator : String
  pub value : Json

-- `models.Destination` with the column `is_default`; the time of creation is left out.
pub record Destination : Type 0 where
  pub id : String
  pub source_id : String
  pub name : String
  pub url : String
  pub timeout_seconds : ℕ
  pub is_active : Bool
  pub is_default : Bool

pub record RoutingRule : Type 0 where
  pub id : String
  pub source_id : String
  pub destination_id : String
  pub name : String
  pub priority : ℕ
  pub logic_operator : String
  pub conditions : List ℕ
  pub is_active : Bool

-- The two tables, and which of the three queries fail.
pub record RoutingStore : Type 0 where
  pub routing_rules : List RoutingRule
  pub destinations : List Destination
  pub rules_fail : Bool
  pub destinations_fail : Bool
  pub defaults_fail : Bool

-- `ORDER BY priority ASC`; the order among equals, which SQL leaves free, is the table's.
unfoldable pub insert_rule : RoutingRule → List RoutingRule → List RoutingRule
insert_rule r [] = r ∷ []
insert_rule r (q ∷ qs) = if leb r.priority q.priority then r ∷ q ∷ qs else q ∷ insert_rule r qs

unfoldable pub by_priority : List RoutingRule → List RoutingRule
unfolding insert_rule
by_priority [] = []
by_priority (r ∷ rs) = insert_rule r (by_priority rs)

-- `GetRoutingRules`
unfoldable pub get_routing_rules : RoutingStore → String → Option (List RoutingRule)
unfolding by_priority
get_routing_rules pg source_id =
    if pg.rules_fail
    then none
    else some
        (by_priority (filter (λ r. str_eq r.source_id source_id && r.is_active) pg.routing_rules))

-- `GetDestinationsBySourceID`
unfoldable pub get_destinations_by_source_id : RoutingStore → String → Option (List Destination)
get_destinations_by_source_id pg source_id =
    if pg.destinations_fail
    then none
    else some (filter (λ d. str_eq d.source_id source_id && d.is_active) pg.destinations)

-- `GetDefaultDestinations`
unfoldable pub get_default_destinations : RoutingStore → String → Option (List Destination)
get_default_destinations pg source_id =
    if pg.defaults_fail
    then none
    else some
        (filter (λ d. str_eq d.source_id source_id && d.is_active && d.is_default) pg.destinations)

-- `matchedDestIDs[id]`, false for a missing key.
abbrev pub is_matched : List (String × Bool) → String → Bool
is_matched matched id = elim (lookup id matched) [ none ↦ false | some b ↦ b ]

abbrev pub or_defaults : RoutingStore → String → List Destination → Option (List Destination)
or_defaults pg source_id [] = get_default_destinations pg source_id
or_defaults pg source_id (d ∷ ds) = some (d ∷ ds)

abbrev pub keep_matched :
    RoutingStore
    → String
    → List (String × Bool)
    → Option (List Destination)
    → Option (List Destination)
keep_matched pg source_id matched none = none
keep_matched pg source_id matched (some all_dests) =
    or_defaults pg source_id (filter (λ d. is_matched matched d.id) all_dests)

abbrev pub fetch_matched : RoutingStore → String → List (String × Bool) → Option (List Destination)
fetch_matched pg source_id [] = get_default_destinations pg source_id
fetch_matched pg source_id (m ∷ ms) =
    keep_matched pg source_id (m ∷ ms) (get_destinations_by_source_id pg source_id)

module _ (format_float : ℕ → String) (parse_float : String → Option ℕ) where
  -- `toFloat`; decoded JSON holds no other number type than float64.
  unfoldable pub to_float : Json → Option ℕ
  to_float (num b) = some b
  to_float (str s) = parse_float s
  to_float _ = none

  abbrev compare_floats : String → ℕ → ℕ → Bool
  compare_floats op a b =
      if str_eq op "gt"
      then float_lt b a
      else if str_eq op "gte"
      then float_le b a
      else if str_eq op "lt"
      then float_lt a b
      else if str_eq op "lte"
      then float_le a b
      else false

  -- `compareNumeric`
  unfoldable pub compare_numeric : Json → Json → String → Bool
  unfolding to_float float_lt float_le
  compare_numeric a b op = elim (to_float a) [
    | none ↦ false
    | some x ↦ elim (to_float b) [ none ↦ false | some y ↦ compare_floats op x y ]
  ]

  -- The second `switch` of `EvaluateCondition`, for a field that is there.
  unfoldable pub evaluate_value : Condition → Json → Bool
  unfolding sprint compare_numeric
  evaluate_value c value =
      let shown = sprint format_float value in
      let wanted = sprint format_float c.value in
      if str_eq c.operator "eq"
      then str_eq shown wanted
      else if str_eq c.operator "neq"
      then not (str_eq shown wanted)
      else if str_eq c.operator "contains"
      then is_some (find? shown wanted)
      else if str_eq c.operator "gt"
          || str_eq c.operator "gte"
          || str_eq c.operator "lt"
          || str_eq c.operator "lte"
      then compare_numeric value c.value c.operator
      else false

  unfoldable pub evaluate_condition : Condition → List (String × Json) → Bool
  unfolding lookup evaluate_value
  evaluate_condition c flat =
      let found = lookup c.field flat in
      if str_eq c.operator "exists"
      then is_some found
      else if str_eq c.operator "not_exists"
      then not (is_some found)
      else elim found [ none ↦ false | some value ↦ evaluate_value c value ]

  -- The two loops of `EvaluateConditions`.
  unfoldable pub evaluate_or : List Condition → List (String × Json) → Bool
  unfolding evaluate_condition
  evaluate_or [] flat = false
  evaluate_or (c ∷ cs) flat =
      let rest = evaluate_or cs flat in if evaluate_condition c flat then true else rest

  unfoldable pub evaluate_and : List Condition → List (String × Json) → Bool
  unfolding evaluate_condition
  evaluate_and [] flat = true
  evaluate_and (c ∷ cs) flat =
      let rest = evaluate_and cs flat in if not (evaluate_condition c flat) then false else rest

  unfoldable pub evaluate_conditions : List Condition → List (String × Json) → String → Bool
  unfolding evaluate_or evaluate_and
  evaluate_conditions conditions flat logic =
      if is_empty conditions
      then false
      else if str_eq logic "OR"
      then evaluate_or conditions flat
      else evaluate_and conditions flat

  module _ (parse_body : List ℕ → Option Fields)
      (parse_conditions : List ℕ → Option (List Condition)) where
    -- One round of the loop over the rules.
    unfoldable pub match_rule :
        RoutingRule → List (String × Json) → List (String × Bool) → List (String × Bool)
    unfolding insert evaluate_conditions
    match_rule rule flat matched = elim (parse_conditions rule.conditions) [
      | none ↦ matched
      | some conditions ↦
          if evaluate_conditions conditions flat rule.logic_operator
          then insert rule.destination_id true matched
          else matched
    ]

    unfoldable pub match_rules :
        List RoutingRule → List (String × Json) → List (String × Bool) → List (String × Bool)
    unfolding match_rule
    match_rules [] flat matched = matched
    match_rules (r ∷ rs) flat matched = match_rules rs flat (match_rule r flat matched)

    abbrev pub route_payload :
        RoutingStore → String → List RoutingRule → Option Fields → Option (List Destination)
    route_payload pg source_id rules none = get_default_destinations pg source_id
    route_payload pg source_id rules (some payload) =
        fetch_matched pg source_id (match_rules rules (flatten_json payload) [])

    abbrev pub route_by_rules :
        RoutingStore → String → List ℕ → Option (List RoutingRule) → Option (List Destination)
    route_by_rules pg source_id raw_body none = get_destinations_by_source_id pg source_id
    route_by_rules pg source_id raw_body (some []) = get_destinations_by_source_id pg source_id
    route_by_rules pg source_id raw_body (some (r ∷ rs)) =
        route_payload pg source_id (r ∷ rs) (parse_body raw_body)

    -- `ResolveDestinations`; `none` is an error.
    unfoldable pub resolve_destinations : RoutingStore → String → List ℕ → Option (List Destination)
    unfolding get_routing_rules get_default_destinations get_destinations_by_source_id match_rules
        lookup flatten_json
    resolve_destinations pg source_id raw_body =
        route_by_rules pg source_id raw_body (get_routing_rules pg source_id)
