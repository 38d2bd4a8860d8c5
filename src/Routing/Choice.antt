-- ===== src/Routing/Choice.antt =====
-- Which destinations `ResolveDestinations` chooses.
use webhook_mind.Prelude.{
  Bool, List, Option, String, [], any, ap, arith, false, filter, if◌then◌else◌, is_empty, lookup,
  lookup-insert, none, refl, some, str_eq, sym, true, ℕ, ◌&&◌, ◌||◌, ◌∙◌, ◌∷◌, ◌≡◌,
}
use webhook_mind.Json.{Fields, Json}
use webhook_mind.Schema.Flatten.{flatten_json}
use webhook_mind.Routing.{
  Condition, Destination, RoutingRule, RoutingStore, by_priority, evaluate_conditions,
  fetch_matched, get_default_destinations, get_destinations_by_source_id, get_routing_rules,
  insert_rule, is_matched, match_rule, match_rules, or_defaults, resolve_destinations,
  route_by_rules,
}

any-insert_rule :
    (p : RoutingRule → Bool) (r : RoutingRule) (rs : List RoutingRule)
    → any p (insert_rule r rs) ≡ p r || any p rs
unfolding insert_rule
any-insert_rule p r [] = refl
any-insert_rule p r (q ∷ rs) = ground (arith, any-insert_rule p r rs)

any-by_priority :
    (p : RoutingRule → Bool) (rs : List RoutingRule) → any p (by_priority rs) ≡ any p rs
unfolding by_priority
any-by_priority p [] = refl
any-by_priority p (r ∷ rs) =
    any-insert_rule p r (by_priority rs) ∙ ap (λ b. p r || b) (any-by_priority p rs)

is_empty-by_priority : (rs : List RoutingRule) → is_empty (by_priority rs) ≡ is_empty rs
is_empty-by_priority [] = unfold by_priority in refl
is_empty-by_priority (r ∷ rs) = unfold by_priority in go (by_priority rs)
  where
    go : (qs : List RoutingRule) → is_empty (insert_rule r qs) ≡ false
    go [] = unfold insert_rule in refl
    go (q ∷ qs) = unfold insert_rule in ground arith

-- Active destinations of the source.
abbrev pub active : RoutingStore → String → List Destination
active pg source_id = filter (λ d. str_eq d.source_id source_id && d.is_active) pg.destinations

abbrev pub defaults : RoutingStore → String → List Destination
defaults pg source_id =
    filter (λ d. str_eq d.source_id source_id && d.is_active && d.is_default) pg.destinations

-- Active rules of the source, as they stand in the table.
abbrev pub rules_of : RoutingStore → String → List RoutingRule
rules_of pg source_id = filter (λ r. str_eq r.source_id source_id && r.is_active) pg.routing_rules

get_routing_rules_lem :
    (pg : RoutingStore) (source_id : String)
    → pg.rules_fail ≡ false
    → get_routing_rules pg source_id ≡ some (by_priority (rules_of pg source_id))
unfolding get_routing_rules
get_routing_rules_lem pg source_id up = ground arith

get_destinations_by_source_id_lem :
    (pg : RoutingStore) (source_id : String)
    → pg.destinations_fail ≡ false
    → get_destinations_by_source_id pg source_id ≡ some (active pg source_id)
unfolding get_destinations_by_source_id
get_destinations_by_source_id_lem pg source_id up = ground arith

get_default_destinations_lem :
    (pg : RoutingStore) (source_id : String)
    → pg.defaults_fail ≡ false
    → get_default_destinations pg source_id ≡ some (defaults pg source_id)
unfolding get_default_destinations
get_default_destinations_lem pg source_id up = ground arith

filter_cong :
    (p q : Destination → Bool) (ds : List Destination)
    → ((d : Destination) → p d ≡ q d)
    → filter p ds ≡ filter q ds
filter_cong p q [] h = refl
filter_cong p q (d ∷ ds) h = rw (h d, filter_cong p q ds h)

filter-none :
    (p : Destination → Bool) (ds : List Destination)
    → ((d : Destination) → p d ≡ false)
    → filter p ds ≡ []
filter-none p [] h = refl
filter-none p (d ∷ ds) h = rw (h d) (filter-none p ds h)

or_defaults_lem :
    (pg : RoutingStore) (source_id : String)
    → pg.defaults_fail ≡ false
    → (ds : List Destination)
    → or_defaults pg source_id ds ≡ some (if is_empty ds then defaults pg source_id else ds)
unfolding get_default_destinations
or_defaults_lem pg source_id up [] = rw up
or_defaults_lem pg source_id up (d ∷ ds) = refl

module _ (format_float : ℕ → String) (parse_float : String → Option ℕ)
    (parse_body : List ℕ → Option Fields)
    (parse_conditions : List ℕ → Option (List Condition)) where
  -- A rule applies if its conditions can be read and hold.
  unfoldable pub applies : List (String × Json) → RoutingRule → Bool
  applies flat rule = elim (parse_conditions rule.conditions) [
    | none ↦ false
    | some cs ↦ evaluate_conditions format_float parse_float cs flat rule.logic_operator
  ]

  -- Some rule that applies names the destination.
  abbrev pub wanted : List (String × Json) → List RoutingRule → String → Bool
  wanted flat rules id = any (λ r. applies flat r && str_eq r.destination_id id) rules

  match_rule-is_matched :
      (rule : RoutingRule) (flat : List (String × Json)) (m : List (String × Bool)) (id : String)
      → is_matched (match_rule format_float parse_float parse_body parse_conditions rule flat m) id
        ≡ (applies flat rule && str_eq rule.destination_id id) || is_matched m id
  unfolding match_rule applies
  match_rule-is_matched rule flat m id = ground (arith, lookup-insert rule.destination_id id true m)

  match_rules-is_matched :
      (rules : List RoutingRule) (flat : List (String × Json)) (m : List (String × Bool))
      (id : String)
      → is_matched
          (match_rules format_float parse_float parse_body parse_conditions rules flat m)
          id
        ≡ wanted flat rules id || is_matched m id
  unfolding match_rules
  match_rules-is_matched [] flat m id = refl
  match_rules-is_matched (r ∷ rs) flat m id = ground (
    arith,
    match_rules-is_matched rs flat
        (match_rule format_float parse_float parse_body parse_conditions r flat m) id,
    match_rule-is_matched r flat m id,
  )

  chosen_of_matched :
      (pg : RoutingStore) (source_id : String) (m : List (String × Bool)) (p : String → Bool)
      → pg.destinations_fail ≡ false
      → pg.defaults_fail ≡ false
      → ((id : String) → is_matched m id ≡ p id)
      → fetch_matched pg source_id m ≡ (
          let chosen = filter (λ d. p d.id) (active pg source_id) in
          some (if is_empty chosen then defaults pg source_id else chosen))
  chosen_of_matched pg source_id [] p up defaults_up same =
      rw
        (filter-none (λ d. p d.id) (active pg source_id)
          (λ d. sym (same d.id) ∙ unfold lookup in refl))
        (get_default_destinations_lem pg source_id defaults_up)
  chosen_of_matched pg source_id (e ∷ m) p up defaults_up same =
      rw (get_destinations_by_source_id_lem pg source_id up) (
        rw
          (filter_cong (λ d. is_matched (e ∷ m) d.id) (λ d. p d.id) (active pg source_id)
            (λ d. same d.id))
          (or_defaults_lem pg source_id defaults_up (filter (λ d. p d.id) (active pg source_id))))

  -- If the queries do not fail, the source has an active rule and the body is a JSON object: the
  -- chosen destinations are the active ones of the source that some active rule which applies
  -- names, in the table's order, and the active defaults if there is none. The order of the rules,
  -- hence their priority, does not matter.
  pub resolve_destinations_lem :
      (pg : RoutingStore) (source_id : String) (raw_body : List ℕ) (payload : Fields)
      → pg.rules_fail ≡ false
      → pg.destinations_fail ≡ false
      → pg.defaults_fail ≡ false
      → is_empty (rules_of pg source_id) ≡ false
      → parse_body raw_body ≡ some payload
      → resolve_destinations format_float parse_float parse_body parse_conditions pg source_id
          raw_body
        ≡ (let chosen =
              filter
                (λ d. wanted (flatten_json payload) (rules_of pg source_id) d.id)
                (active pg source_id) in
            some (if is_empty chosen then defaults pg source_id else chosen))
  unfolding resolve_destinations
  resolve_destinations_lem pg source_id raw_body payload rules_up up defaults_up some_rule parsed =
      rw (get_routing_rules_lem pg source_id rules_up)
        (go (by_priority (rules_of pg source_id)) refl)
    where
      go :
          (rules : List RoutingRule)
          → by_priority (rules_of pg source_id) ≡ rules
          → route_by_rules format_float parse_float parse_body parse_conditions pg source_id
              raw_body
              (some rules)
            ≡ (let chosen =
                  filter
                    (λ d. wanted (flatten_json payload) (rules_of pg source_id) d.id)
                    (active pg source_id) in
                some (if is_empty chosen then defaults pg source_id else chosen))
      go [] e =
          cc (is_empty-by_priority (rules_of pg source_id), some_rule, ap {B = Bool} is_empty e)
      go (r ∷ rs) e = rw parsed (
          chosen_of_matched pg source_id
            (match_rules format_float parse_float parse_body parse_conditions (r ∷ rs)
              (flatten_json payload) [])
            (wanted (flatten_json payload) (rules_of pg source_id)) up defaults_up
            (λ id. match_rules-is_matched (r ∷ rs) (flatten_json payload) [] id ∙ same_any id))
        where
          same_any :
              (id : String)
              → wanted (flatten_json payload) (r ∷ rs) id || is_matched [] id
                ≡ wanted (flatten_json payload) (rules_of pg source_id) id
          same_any id =
              unfold lookup in
              ground (
                arith,
                any-by_priority
                    (λ q. applies (flatten_json payload) q && str_eq q.destination_id id)
                    (rules_of pg source_id),
                ap (λ qs. wanted (flatten_json payload) qs id) e,
              )
