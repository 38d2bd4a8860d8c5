-- ===== src/Api/Rules/Applied.antt =====
-- What a rule that is created, or deleted again, does to the routing.
use webhook_mind.Prelude.{
  All, Bool, Bool-cases, In, In-last, List, Option, String, [], any, ap, arith, eq_iff, eq_refl,
  false, filter, head, if◌then◌else◌, inl, inr, is_empty, not, refl, some, str_eq, tail, true, ℕ,
  ◌++◌, ◌∷◌, ◌≡◌,
}
use webhook_mind.Json.{Fields}
use webhook_mind.Schema.Flatten.{flatten_json}
use webhook_mind.Api.Rules.{RuleInput, handle_create_rule, handle_delete_rule, rule_of, with_rules}
use webhook_mind.Routing.{
  Condition, Destination, RoutingRule, RoutingStore, evaluate_conditions, resolve_destinations,
}
use webhook_mind.Routing.Choice.{active, applies, resolve_destinations_lem, rules_of, wanted}

In-filter {ℓ} :
    {A : Type ℓ} (p : A → Bool) (x : A) (xs : List A) → In x xs → p x ≡ true → In x (filter p xs)
In-filter p x [] i h = elim i [ ]
In-filter p x (y ∷ xs) head h = rw h head
In-filter p x (y ∷ xs) (tail i) h = elim (Bool-cases (p y)) [
  | inl kept ↦ rw kept (tail (In-filter p x xs i h))
  | inr left ↦ rw left (In-filter p x xs i h)
]

In-is_empty {ℓ} : {A : Type ℓ} (x : A) (xs : List A) → In x xs → is_empty xs ≡ false
In-is_empty x [] i = elim i [ ]
In-is_empty x (y ∷ xs) i = refl

any-In {ℓ} :
    {A : Type ℓ} (p : A → Bool) (x : A) (xs : List A) → In x xs → p x ≡ true → any p xs ≡ true
any-In p x [] i h = elim i [ ]
any-In p x (y ∷ xs) head h = rw h refl
any-In p x (y ∷ xs) (tail i) h = rw (any-In p x xs i h) (ground arith)

module _ (format_float : ℕ → String) (parse_float : String → Option ℕ)
    (parse_body : List ℕ → Option Fields)
    (parse_conditions : List ℕ → Option (List Condition)) where
  -- An active destination of the source that an active rule which applies names is chosen.
  resolve_destinations-In :
      (pg : RoutingStore) (source_id : String) (raw_body : List ℕ) (payload : Fields)
      (rule : RoutingRule) (d : Destination)
      → pg.rules_fail ≡ false
      → pg.destinations_fail ≡ false
      → pg.defaults_fail ≡ false
      → parse_body raw_body ≡ some payload
      → In rule pg.routing_rules
      → (rule.source_id ≡ source_id) × (rule.is_active ≡ true) × (rule.destination_id ≡ d.id)
      → applies format_float parse_float parse_body parse_conditions (flatten_json payload) rule
        ≡ true
      → In d pg.destinations
      → (d.source_id ≡ source_id) × (d.is_active ≡ true)
      → (chosen : List Destination) × (resolve_destinations format_float parse_float parse_body
            parse_conditions pg source_id raw_body
          ≡ some chosen)
        × In d chosen
  resolve_destinations-In pg source_id raw_body payload rule d up₁ up₂ up₃ parsed i (s, a, n) holds
        j (s', a') =
      let rule_there : In rule (rules_of pg source_id) =
        In-filter _ rule pg.routing_rules i (ground (arith, eq_iff rule.source_id source_id)) in
      let dest_there : In d (active pg source_id) =
        In-filter _ d pg.destinations j (ground (arith, eq_iff d.source_id source_id)) in
      let wants_d : wanted format_float parse_float parse_body parse_conditions
            (flatten_json payload) (rules_of pg source_id) d.id
          ≡ true =
        any-In _ rule (rules_of pg source_id) rule_there
          (ground (arith, eq_iff rule.destination_id d.id)) in
      let kept =
        In-filter
          (λ x.
            wanted format_float parse_float parse_body parse_conditions (flatten_json payload)
              (rules_of pg source_id) x.id)
          d (active pg source_id) dest_there wants_d in
      (
        _,
        resolve_destinations_lem format_float parse_float parse_body parse_conditions pg source_id
            raw_body payload up₁ up₂ up₃ (In-is_empty rule _ rule_there) parsed,
        rw (In-is_empty d _ kept) kept,
      )

  -- If the statement and the three queries of the routing work: a rule that is created, in whatever
  -- order of priorities, brings an active destination of its source that it names into the choice
  -- for every body whose flat fields meet its conditions; an empty operator stands for AND.
  pub resolve_destinations-handle_create_rule :
      (id source_id : String) (input : RuleInput) (pg : RoutingStore) (raw_body : List ℕ)
      (payload : Fields) (conditions : List Condition) (d : Destination)
      → pg.rules_fail ≡ false
      → pg.destinations_fail ≡ false
      → pg.defaults_fail ≡ false
      → parse_body raw_body ≡ some payload
      → parse_conditions input.conditions ≡ some conditions
      → evaluate_conditions format_float parse_float conditions
          (flatten_json payload)
          (if str_eq input.logic_operator "" then "AND" else input.logic_operator)
        ≡ true
      → In d pg.destinations
      → (d.source_id ≡ source_id) × (d.is_active ≡ true) × (input.destination_id ≡ d.id)
      → let (status, pg') = handle_create_rule false id source_id (some input) pg in
        (status ≡ 201)
        × ((chosen : List Destination) × (resolve_destinations format_float parse_float parse_body
                parse_conditions pg' source_id raw_body
              ≡ some chosen)
            × In d chosen)
  unfolding handle_create_rule applies
  resolve_destinations-handle_create_rule id source_id input pg raw_body payload conditions d up₁
        up₂ up₃ parsed read holds i (s, a, n) =
      (
        refl,
        resolve_destinations-In _ source_id raw_body payload
            (record (rule_of source_id input) { id = id; is_active = true }) d up₁ up₂ up₃ parsed
            (In-last _ pg.routing_rules) (refl, refl, n) (rw (read, applies) holds) i (s, a),
      )

filter-kept {ℓ} :
    {A : Type ℓ} (p : A → Bool) (xs : List A) (x : A)
    → All (λ y. p y ≡ true) xs
    → p x ≡ false
    → filter p (xs ++ x ∷ []) ≡ xs
filter-kept p [] x h e = rw e refl
filter-kept p (y ∷ xs) x (first, rest) e = rw first (ap (λ l. y ∷ l) (filter-kept p xs x rest e))

-- A rule that is created under a new identifier and then deleted leaves the tables as they were.
pub handle_delete_rule-handle_create_rule :
    (id source_id : String) (input : RuleInput) (pg : RoutingStore)
    → All (λ (r : RoutingRule). not (str_eq r.id id) ≡ true) pg.routing_rules
    → handle_delete_rule false id (handle_create_rule false id source_id (some input) pg).1
      ≡ (200, pg)
unfolding handle_delete_rule handle_create_rule
handle_delete_rule-handle_create_rule id source_id input pg fresh =
    ap (λ rows. (200, with_rules rows pg))
      (filter-kept (λ (r : RoutingRule). not (str_eq r.id id)) pg.routing_rules
        (record (rule_of source_id input) { id = id; is_active = true }) fresh
        (rw (eq_refl id) refl))
