-- ===== src/Tests/Routing.antt =====
-- Runs of rule evaluation and the choice of destinations.
use webhook_mind.Prelude.{
  Bool, List, Option, String, [], false, filter, if◌then◌else◌, is_empty, none, refl, some, str_eq,
  true, ℕ, ◌∷◌, ◌≡◌,
}
use webhook_mind.Json.{Fields, Json, end, member, null, num, str}
use webhook_mind.Json.Sprint.{decimal}
use webhook_mind.Schema.Flatten.{flatten_json}
use webhook_mind.Routing.{
  Condition, Destination, RoutingRule, RoutingStore, evaluate_condition, resolve_destinations,
}
use webhook_mind.Routing.Choice.{active, defaults, resolve_destinations_lem, rules_of, wanted}

-- Stand-ins for the parameters: floats print as their patterns, "2" reads as the float 2, a body is
-- one byte, and the conditions of a rule are "amount is there".
abbrev pub show : ℕ → String
show b = decimal b

abbrev two : ℕ
two = 4611686018427387904

abbrev pub one : ℕ
one = 4607182418800017408

abbrev pub read : String → Option ℕ
read s = if str_eq s "2" then some two else none

abbrev pub body_of : List ℕ → Option Fields
body_of [] = none
body_of (b ∷ s) = some (member "amount" (num one) end)

abbrev pub conditions_of : List ℕ → Option (List Condition)
conditions_of [] = none
conditions_of (b ∷ s) = some (record { field = "amount"; operator = "exists"; value = null } ∷ [])

abbrev amount_below : Condition
amount_below = record { field = "amount"; operator = "lt"; value = str "2" }

abbrev flat : List (String × Json)
flat = ("amount", num one) ∷ []

below_test : evaluate_condition show read amount_below flat ≡ true
unfolding evaluate_condition
below_test = refl

abbrev pub sink : String → Bool → Destination
sink id is_default = record {
  id = id;
  source_id = "shop";
  name = id;
  url = "http://sink";
  timeout_seconds = 10;
  is_active = true;
  is_default = is_default;
}

abbrev rule : RoutingRule
rule = record {
  id = "r1";
  source_id = "shop";
  destination_id = "d2";
  name = "big";
  priority = 1;
  logic_operator = "AND";
  conditions = 1 ∷ [];
  is_active = true;
}

abbrev pub tables : RoutingStore
tables = record {
  routing_rules = rule ∷ [];
  destinations = sink "d1" true ∷ sink "d2" false ∷ [];
  rules_fail = false;
  destinations_fail = false;
  defaults_fail = false;
}

routed :
    resolve_destinations show read body_of conditions_of tables "shop" (1 ∷ [])
    ≡ some (sink "d2" false ∷ [])
unfolding resolve_destinations
routed = refl

resolve_destinations_lem_example :
    resolve_destinations show read body_of conditions_of tables "shop" (1 ∷ []) ≡ (
      let chosen =
        filter
          (λ d.
            wanted show read body_of conditions_of
              (flatten_json (member "amount" (num one) end))
              (rules_of tables "shop")
              d.id)
          (active tables "shop") in
      some (if is_empty chosen then defaults tables "shop" else chosen))
resolve_destinations_lem_example =
    resolve_destinations_lem show read body_of conditions_of tables "shop" (1 ∷ [])
      (member "amount" (num one) end) refl refl refl refl refl
