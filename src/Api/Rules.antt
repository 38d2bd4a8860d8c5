-- ===== src/Api/Rules.antt =====
-- internal/api/handlers.go: the handlers that create, update and delete routing rules, with the
-- statements they issue (internal/store/postgres.go). A request comes decoded, or not at all; the
-- conditions are its JSON, written again. The identifier of a new row, which the database chooses,
-- is given; `fails` says that the statement fails. Priorities are not negative here, as in `Routing`.
pub mod Applied
use webhook_mind.Prelude.{
  Bool, List, Option, String, [], filter, if◌then◌else◌, map, none, not, some, str_eq, true, ℕ,
  ◌++◌, ◌==◌, ◌∷◌,
}
use webhook_mind.Routing.{RoutingRule, RoutingStore}

pub record RuleInput : Type 0 where
  pub destination_id : String
  pub name : String
  pub priority : ℕ
  pub logic_operator : String
  pub conditions : List ℕ

-- The body of an update, with the same defaults of JSON: an absent field is empty.
pub record RuleUpdate : Type 0 where
  pub name : String
  pub priority : ℕ
  pub logic_operator : String
  pub conditions : List ℕ
  pub is_active : Bool

-- `CreateRoutingRule`: the identifier and the rows; `none` is its error. The column `is_active` has
-- the default true.
unfoldable pub create_routing_rule :
    Bool → String → RoutingRule → List RoutingRule → Option (String × List RoutingRule)
create_routing_rule fails id rule rows =
    if fails then none else some (id, rows ++ record rule { id = id; is_active = true } ∷ [])

abbrev pub changed_rule : String → RoutingRule → RoutingRule → RoutingRule
changed_rule rule_id rule row =
    if str_eq row.id rule_id
    then record row {
      name = rule.name;
      priority = rule.priority;
      logic_operator = rule.logic_operator;
      conditions = rule.conditions;
      is_active = rule.is_active;
    }
    else row

-- `UpdateRoutingRule`
unfoldable pub update_routing_rule :
    Bool → String → RoutingRule → List RoutingRule → Option (List RoutingRule)
update_routing_rule fails rule_id rule rows =
    if fails then none else some (map (changed_rule rule_id rule) rows)

-- `DeleteRoutingRule`
unfoldable pub delete_routing_rule : Bool → String → List RoutingRule → Option (List RoutingRule)
delete_routing_rule fails rule_id rows =
    if fails then none else some (filter (λ r. not (str_eq r.id rule_id)) rows)

abbrev pub with_rules : List RoutingRule → RoutingStore → RoutingStore
with_rules rows pg = record pg { routing_rules = rows }

-- The rule that a request describes, with the defaults for the operator and the priority.
unfoldable pub rule_of : String → RuleInput → RoutingRule
rule_of source_id input = record {
  id = "";
  source_id = source_id;
  destination_id = input.destination_id;
  name = input.name;
  priority = if input.priority == 0 then 100 else input.priority;
  logic_operator = if str_eq input.logic_operator "" then "AND" else input.logic_operator;
  conditions = input.conditions;
  is_active = true;
}

abbrev pub created : RoutingStore → Option (String × List RoutingRule) → ℕ × RoutingStore
created pg none = (500, pg)
created pg (some (id, rows)) = (201, with_rules rows pg)

-- `handleCreateRule`: the status of the answer, and the tables.
unfoldable pub handle_create_rule :
    Bool → String → String → Option RuleInput → RoutingStore → ℕ × RoutingStore
unfolding create_routing_rule rule_of
handle_create_rule fails id source_id none pg = (400, pg)
handle_create_rule fails id source_id (some input) pg =
    created pg (create_routing_rule fails id (rule_of source_id input) pg.routing_rules)

abbrev pub written : RoutingStore → Option (List RoutingRule) → ℕ × RoutingStore
written pg none = (500, pg)
written pg (some rows) = (200, with_rules rows pg)

-- The rule of an update: no defaults here.
abbrev pub update_of : RuleUpdate → RoutingRule
update_of input = record {
  id = "";
  source_id = "";
  destination_id = "";
  name = input.name;
  priority = input.priority;
  logic_operator = input.logic_operator;
  conditions = input.conditions;
  is_active = input.is_active;
}

-- `handleUpdateRule`
unfoldable pub handle_update_rule :
    Bool → String → Option RuleUpdate → RoutingStore → ℕ × RoutingStore
unfolding update_routing_rule
handle_update_rule fails rule_id none pg = (400, pg)
handle_update_rule fails rule_id (some input) pg =
    written pg (update_routing_rule fails rule_id (update_of input) pg.routing_rules)

-- `handleDeleteRule`
unfoldable pub handle_delete_rule : Bool → String → RoutingStore → ℕ × RoutingStore
unfolding delete_routing_rule
handle_delete_rule fails rule_id pg =
    written pg (delete_routing_rule fails rule_id pg.routing_rules)
