-- ===== src/Tests/Rules.antt =====
-- A rule that is created, used and deleted.
use webhook_mind.Prelude.{In, List, [], false, head, map, refl, some, true, ◌∷◌, ◌≡◌}
use webhook_mind.Json.{end, member, null, num}
use webhook_mind.Schema.Flatten.{flatten_json}
use webhook_mind.Routing.{
  Condition, Destination, RoutingRule, RoutingStore, evaluate_conditions, resolve_destinations,
}
use webhook_mind.Api.Rules.{RuleInput, handle_create_rule, handle_delete_rule, handle_update_rule}
use webhook_mind.Api.Rules.Applied.{
  handle_delete_rule-handle_create_rule, resolve_destinations-handle_create_rule,
}
use webhook_mind.Tests.Routing.{body_of, conditions_of, one, read, show, sink, tables}

abbrev to_default : RuleInput
to_default = record {
  destination_id = "d1";
  name = "all";
  priority = 0;
  logic_operator = "";
  conditions = 2 ∷ [];
}

abbrev amount_there : Condition
amount_there = record { field = "amount"; operator = "exists"; value = null }

abbrev after_create : RoutingStore
after_create = (handle_create_rule false "r2" "shop" (some to_default) tables).1

both_chosen :
    resolve_destinations show read body_of conditions_of after_create "shop" (1 ∷ [])
    ≡ some (sink "d1" true ∷ sink "d2" false ∷ [])
unfolding resolve_destinations handle_create_rule
both_chosen = refl

resolve_destinations-handle_create_rule_example :
    ((handle_create_rule false "r2" "shop" (some to_default) tables).0 ≡ 201)
    × ((chosen : List Destination) × (resolve_destinations show read body_of conditions_of
            after_create "shop"
            (1 ∷ [])
          ≡ some chosen)
        × In (sink "d1" true) chosen)
unfolding evaluate_conditions flatten_json
resolve_destinations-handle_create_rule_example =
    resolve_destinations-handle_create_rule show read body_of conditions_of "r2" "shop" to_default
      tables (1 ∷ []) (member "amount" (num one) end) (amount_there ∷ []) (sink "d1" true) refl refl
      refl refl refl refl head (refl, refl, refl)

handle_delete_rule-handle_create_rule_example :
    handle_delete_rule false "r2" after_create ≡ (200, tables)
handle_delete_rule-handle_create_rule_example =
    handle_delete_rule-handle_create_rule "r2" "shop" to_default tables (refl, tt)

-- An update keeps an operator and a priority that are missing as they are: empty, and zero.
no_defaults :
    map
      (λ (r : RoutingRule). r.logic_operator)
      (handle_update_rule false "r1"
        (some (record {
          name = "";
          priority = 0;
          logic_operator = "";
          conditions = [];
          is_active = true;
        }))
        tables).1.routing_rules
    ≡ "" ∷ []
unfolding handle_update_rule
no_defaults = refl
