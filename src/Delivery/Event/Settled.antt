-- ===== src/Delivery/Event/Settled.antt =====
-- internal/delivery/engine.go: where an event is after its delivery, for each of its destinations.
use webhook_mind.Prelude.{
  All, Bool-cases, In, In-append, In-last, List, Option, String, [], ap, arith, false, inl, inr,
  ltb, map, refl, some, subst, suc, sym, true, zero, ℕ, ◌+◌, ◌∷◌, ◌≡◌, ◌≤◌, ◌⊎◌,
}
use webhook_mind.Delivery.Event.{Engine, Pipeline, World, deliver_event, fan_out, kept, run_of}
use webhook_mind.Queue.{RedisQueue}
use webhook_mind.Json.{Fields}
use webhook_mind.Models.{DeadLetterEntry, WebhookEvent}
use webhook_mind.Routing.{Condition, Destination, resolve_destinations}
use webhook_mind.Delivery.Destination.{
  HttpAnswer, Ledger, Outcome, Run, answered, bad_request, deliver_from, deliver_to_destination,
  delivered, refused, transport_error,
}
use webhook_mind.Delivery.Destination.Verdict.{
  IsRefusal, IsRetried, IsSuccess, below_200, code_2xx, code_3xx, code_4xx, decide-IsRefusal,
  decide-IsRetried, decide-IsSuccess, from_500, no_answer, no_request, round_done, round_retry,
}
use webhook_mind.Delivery.Destination.Burial.{
  deliver_to_destination-move_to_dlq, entry_for, is_dead,
}

classify : (a : HttpAnswer) → IsSuccess a ⊎ IsRefusal a ⊎ IsRetried a
classify (bad_request e) = inr (inr (no_request e))
classify (transport_error e) = inr (inr (no_answer e))
classify (answered code) = elim (Bool-cases (ltb code 200)) [
  | inl low ↦ inr (inr (below_200 code (ground arith)))
  | inr from_200 ↦ elim (Bool-cases (ltb code 300)) [
    | inl ok ↦ inl (code_2xx code (ground arith) (ground arith))
    | inr from_300 ↦ elim (Bool-cases (ltb code 400)) [
      | inl other ↦ inr (inr (code_3xx code (ground arith) (ground arith)))
      | inr from_400 ↦ elim (Bool-cases (ltb code 500)) [
        | inl bad ↦ inr (inl (code_4xx code (ground arith) (ground arith)))
        | inr high ↦ inr (inr (from_500 code (ground arith)))
      ]
    ]
  ]
]

module _ (marshal : WebhookEvent → List ℕ) (unmarshal : List ℕ → Option WebhookEvent) (run : Run)
    (event : WebhookEvent) (dest : Destination) where
  -- An attempt that is answered by a 2xx.
  abbrev pub Answered : Type 0
  Answered = (i : ℕ) × (i ≤ run.max_retries) × IsSuccess (run.answer i)

  deliver_from_ends :
      (left attempt : ℕ) (l : Ledger)
      → attempt + left ≤ run.max_retries + 1
      → run.max_retries ≤ 4
      → ((j : ℕ) → run.context_done j ≡ false)
      → ((deliver_from marshal unmarshal left attempt run event dest l).0 ≡ delivered) × Answered
        ⊎ is_dead (deliver_from marshal unmarshal left attempt run event dest l).0 ≡ true
  deliver_from_ends zero attempt l room few c = inr (unfold deliver_from in refl)
  deliver_from_ends (suc left) attempt l room few c = elim (classify (run.answer attempt)) [
    | inl good ↦
        let e =
          round_done marshal unmarshal run event dest left attempt l delivered (omega arith)
            (c attempt) (decide-IsSuccess _ good) in
        inl (e, (attempt, omega arith, good))
    | inr (inl bad) ↦
        let e =
          round_done marshal unmarshal run event dest left attempt l refused (omega arith)
            (c attempt) (decide-IsRefusal _ bad) in
        inr (ap is_dead e)
    | inr (inr again) ↦
        let (l', step) =
          round_retry marshal unmarshal run event dest left attempt l (omega arith) (c attempt)
            (decide-IsRetried _ again) in
        rw step (deliver_from_ends left (attempt + 1) l' (omega arith) few c)
  ]

-- Nothing leaves the dead letter queues.
abbrev Grows : Ledger → Ledger → Type 0
Grows l l' =
    ((e : DeadLetterEntry) → In e l.dead_letters → In e l'.dead_letters)
    × ((raw : List ℕ) → In raw l.queue.dlq_list → In raw l'.queue.dlq_list)

module _ (marshal : WebhookEvent → List ℕ) (unmarshal : List ℕ → Option WebhookEvent)
    (parse_uuid : String → Option String) (format_float : ℕ → String)
    (parse_float : String → Option ℕ) (parse_body : List ℕ → Option Fields)
    (parse_conditions : List ℕ → Option (List Condition)) (engine : Engine) (world : World)
    (event : WebhookEvent) where
  -- Where the event is for one destination: it was answered by a 2xx, or it is in both queues of
  -- dead letters.
  abbrev pub Settled : Ledger → Destination × Outcome → Type 0
  Settled l (dest, o) =
      (o ≡ delivered) × Answered marshal unmarshal (run_of engine world dest) event dest
      ⊎ (is_dead o ≡ true)
        × ((reason : String) × In
              (entry_for marshal unmarshal (run_of engine world dest) event dest reason)
              l.dead_letters)
        × In (marshal event) l.queue.dlq_list

  Settled-Grows :
      (l l' : Ledger) (d : Destination × Outcome) → Grows l l' → Settled l d → Settled l' d
  Settled-Grows l l' (dest, o) (letters, queued) (inl good) = inl good
  Settled-Grows l l' (dest, o) (letters, queued) (inr (dead, (reason, i), j)) =
      inr (dead, (reason, letters _ i), queued _ j)

  module _ (few : engine.max_retries ≤ 4)
      (open_ctx : (dest : Destination) (j : ℕ) → (world.course dest).context_done j ≡ false)
      (up : (dest : Destination) → (world.course dest).redis_fails ≡ false)
      (written : (dest : Destination) → (world.course dest).dead_letter_fails ≡ false) where
    deliver_to_destination-Grows :
        (dest : Destination) (l : Ledger)
        → Grows l
            (deliver_to_destination marshal unmarshal (run_of engine world dest) event dest l).1
    deliver_to_destination-Grows dest l =
        let result =
          deliver_to_destination marshal unmarshal (run_of engine world dest) event dest l in
        let (buried, kept) =
          deliver_to_destination-move_to_dlq marshal unmarshal (run_of engine world dest) event dest
            l (up dest) (written dest) in
        elim (Bool-cases (is_dead result.0)) [
          | inl dead ↦
              let (reason, letters, queue) = buried dead in
              (
                λ e i. subst (In e) (sym letters) (In-append e l.dead_letters _ i),
                λ raw i.
                    subst (λ (q : RedisQueue). In raw q.dlq_list) (sym queue)
                      (In-append raw l.queue.dlq_list _ i),
              )
          | inr lives ↦
              let (letters, queue) = kept lives in
              (
                λ e i. subst (In e) (sym letters) i,
                λ raw i. subst (λ (q : RedisQueue). In raw q.dlq_list) (sym queue) i,
              )
        ]

    deliver_to_destination-Settled :
        (dest : Destination) (l : Ledger)
        → let (o, l') =
            deliver_to_destination marshal unmarshal (run_of engine world dest) event dest l in
          Settled l' (dest, o)
    unfolding deliver_to_destination
    deliver_to_destination-Settled dest l =
        let run = run_of engine world dest in
        let (buried, kept) =
          deliver_to_destination-move_to_dlq marshal unmarshal run event dest l (up dest)
            (written dest) in
        elim (deliver_from_ends marshal unmarshal run event dest engine.max_retries 1 l
          (omega arith) few (open_ctx dest)) [
            | inl good ↦ inl good
            | inr dead ↦
                let (reason, letters, queue) = buried dead in
                inr (
                  dead,
                  (reason, subst (In _) (sym letters) (In-last _ l.dead_letters)),
                  subst (λ (q : RedisQueue). In (marshal event) q.dlq_list) (sym queue)
                      (In-last (marshal event) l.queue.dlq_list),
                )
          ]

    fan_out-Grows :
        (dests : List Destination) (l : Ledger)
        → Grows l
            (fan_out marshal unmarshal parse_uuid format_float parse_float parse_body
              parse_conditions engine world event dests l).1
    unfolding fan_out
    fan_out-Grows [] l = (λ e i. i, λ raw i. i)
    fan_out-Grows (dest ∷ dests) l =
        let l₁ =
          (deliver_to_destination marshal unmarshal (run_of engine world dest) event dest l).1 in
        let (letters, queued) = deliver_to_destination-Grows dest l in
        let (letters', queued') = fan_out-Grows dests l₁ in
        (λ e i. letters' e (letters e i), λ raw i. queued' raw (queued raw i))

    fan_out-Settled :
        (dests : List Destination) (l : Ledger)
        → let (outcomes, l') =
            fan_out marshal unmarshal parse_uuid format_float parse_float parse_body
              parse_conditions engine world event dests l in
          (map (λ (d : Destination × Outcome). d.0) outcomes ≡ dests) × All (Settled l') outcomes
    unfolding fan_out
    fan_out-Settled [] l = (refl, tt)
    fan_out-Settled (dest ∷ dests) l =
        let l₁ =
          (deliver_to_destination marshal unmarshal (run_of engine world dest) event dest l).1 in
        let l₂ =
          (fan_out marshal unmarshal parse_uuid format_float parse_float parse_body parse_conditions
            engine world event dests l₁).1 in
        let (same, rest) = fan_out-Settled dests l₁ in
        (
          ap (λ ds. dest ∷ ds) same,
          (
            Settled-Grows l₁ l₂ _ (fan_out-Grows dests l₁) (deliver_to_destination-Settled dest l),
            rest,
          ),
        )

    -- With at most four retries, no cancelled context, and Redis and the table of dead letters
    -- working: if the routing finds its destinations, each of them, in its order, is either delivered
    -- to, with an attempt that a 2xx answers, or has given up, and then both dead letter queues hold
    -- the event, the table with the destination and a reason.
    pub deliver_event-Settled :
        (p : Pipeline) (dests : List Destination)
        → resolve_destinations format_float parse_float parse_body parse_conditions world.routing
            event.source_id event.raw_body
          ≡ some dests
        → let (outcomes, p') =
            deliver_event marshal unmarshal parse_uuid format_float parse_float parse_body
              parse_conditions engine world event p in
          (map (λ (d : Destination × Outcome). d.0) outcomes ≡ dests)
          × All (Settled p'.ledger) outcomes
    unfolding deliver_event
    deliver_event-Settled p dests found = rw found (fan_out-Settled dests _)
