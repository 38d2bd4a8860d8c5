-- ===== src/Routing/Conditions.antt =====
-- How conditions relate: lists of them, and pairs of operators that exclude one another.
use webhook_mind.Prelude.{
  Bool, Bool-cases, List, Option, Option-cases, String, [], all, any, arith, false, if◌then◌else◌,
  inl, inr, is_empty, lookup, not, refl, some, str_eq, true, ℕ, ◌&&◌, ◌*◌, ◌<◌, ◌||◌, ◌∷◌, ◌≡◌,
}
use webhook_mind.Json.{Json}
use webhook_mind.Json.Number.{float_trichotomy, is_nan, sign_bit}
use webhook_mind.Routing.{
  Condition, compare_numeric, evaluate_and, evaluate_condition, evaluate_conditions, evaluate_or,
  to_float,
}

module _ (format_float : ℕ → String) (parse_float : String → Option ℕ) where
  -- The condition as a test of one payload.
  abbrev pub holds : List (String × Json) → Condition → Bool
  holds flat c = evaluate_condition format_float parse_float c flat

  evaluate_or-any :
      (cs : List Condition) (flat : List (String × Json))
      → evaluate_or format_float parse_float cs flat
        ≡ any (λ c. evaluate_condition format_float parse_float c flat) cs
  unfolding evaluate_or
  evaluate_or-any [] flat = refl
  evaluate_or-any (c ∷ cs) flat =
      elim (Bool-cases (evaluate_condition format_float parse_float c flat)) [
        | inl h ↦ rw h
        | inr h ↦ rw h (evaluate_or-any cs flat)
      ]

  evaluate_and-all :
      (cs : List Condition) (flat : List (String × Json))
      → evaluate_and format_float parse_float cs flat
        ≡ all (λ c. evaluate_condition format_float parse_float c flat) cs
  unfolding evaluate_and
  evaluate_and-all [] flat = refl
  evaluate_and-all (c ∷ cs) flat =
      elim (Bool-cases (evaluate_condition format_float parse_float c flat)) [
        | inl h ↦ rw h (evaluate_and-all cs flat)
        | inr h ↦ rw h
      ]

  -- A rule with no condition never applies; with the operator `OR` it applies if some condition
  -- holds, and with any other operator if all of them do.
  pub evaluate_conditions_lem :
      (cs : List Condition) (flat : List (String × Json)) (logic : String)
      → evaluate_conditions format_float parse_float cs flat logic
        ≡ not (is_empty cs)
          && (if str_eq logic "OR"
              then any (λ c. evaluate_condition format_float parse_float c flat) cs
              else all (λ c. evaluate_condition format_float parse_float c flat) cs)
  unfolding evaluate_conditions
  evaluate_conditions_lem [] flat logic = refl
  evaluate_conditions_lem (c ∷ cs) flat logic =
      rw (evaluate_or-any (c ∷ cs) flat, evaluate_and-all (c ∷ cs) flat)

  -- The condition with another operator.
  abbrev pub with_operator : String → Condition → Condition
  with_operator op c = record c { operator = op }

  module _ (c : Condition) (flat : List (String × Json)) where
    evaluate_numeric :
        (op : String) (value : Json)
        → lookup c.field flat ≡ some value
        → (str_eq op "gt" || str_eq op "gte" || str_eq op "lt" || str_eq op "lte") ≡ true
        → (str_eq op "exists"
            || str_eq op "not_exists"
            || str_eq op "eq"
            || str_eq op "neq"
            || str_eq op "contains")
          ≡ false
        → evaluate_condition format_float parse_float (with_operator op c) flat
          ≡ compare_numeric format_float parse_float value c.value op
    unfolding evaluate_condition
    evaluate_numeric op value found number other = rw found (ground arith)

    -- On a field that is there, where both sides read as numbers other than NaN, `gte` is the
    -- negation of `lt` and `lte` that of `gt`.
    pub order_operators :
        (value : Json) (x y : ℕ)
        → lookup c.field flat ≡ some value
        → to_float format_float parse_float value ≡ some x
        → to_float format_float parse_float c.value ≡ some y
        → is_nan x ≡ false
        → is_nan y ≡ false
        → x < 2 * sign_bit
        → y < 2 * sign_bit
        → (evaluate_condition format_float parse_float (with_operator "gte" c) flat
            ≡ not (evaluate_condition format_float parse_float (with_operator "lt" c) flat))
          × (evaluate_condition format_float parse_float (with_operator "lte" c) flat
              ≡ not (evaluate_condition format_float parse_float (with_operator "gt" c) flat))
    order_operators value x y found left right xn yn xb yb =
        rw
          (
            evaluate_numeric "gte" value found refl refl,
            evaluate_numeric "lt" value found refl refl,
            evaluate_numeric "lte" value found refl refl,
            evaluate_numeric "gt" value found refl refl,
          )
          (unfold compare_numeric in
            ground (arith, float_trichotomy y x yn xn yb xb, float_trichotomy x y xn yn xb yb))

    -- `neq` and `not_exists` are not each other's like: on a field that is missing, `neq` is false
    -- as `eq` is, and on a field that is there exactly one of the two holds.
    pub eq_neq :
        (evaluate_condition format_float parse_float (with_operator "neq" c) flat
          ≡ not (evaluate_condition format_float parse_float (with_operator "eq" c) flat)
            && evaluate_condition format_float parse_float (with_operator "exists" c) flat)
        × (evaluate_condition format_float parse_float (with_operator "eq" c) flat
            ≡ evaluate_condition format_float parse_float (with_operator "eq" c) flat
              && evaluate_condition format_float parse_float (with_operator "exists" c) flat)
    unfolding evaluate_condition
    eq_neq = elim (Option-cases (lookup c.field flat)) [
      | inl gone ↦ rw gone (refl, refl)
      | inr (value, found) ↦ rw found (ground arith, ground arith)
    ]
