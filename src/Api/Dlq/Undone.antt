-- ===== src/Api/Dlq/Undone.antt =====
-- A retry takes back what a delivery that failed has put into the dead letter queues.
use webhook_mind.Prelude.{
  All, Bool-cases, List, Option, Option-cases, String, [], ap, arith, eq_iff, eq_refl, false, inl,
  inr, map, none, refl, some, str_eq, subst, sym, true, ℕ, ◌++◌, ◌∙◌, ◌∷◌, ◌≡◌,
}
use webhook_mind.Models.{DeadLetterEntry, WebhookEvent}
use webhook_mind.Queue.{
  RedisQueue, enqueue, find_dlq_entry, find_entry, remove_dlq_entry, remove_first,
}
use webhook_mind.Routing.{Destination}
use webhook_mind.Delivery.Destination.{Ledger, Run, deliver_to_destination}
use webhook_mind.Delivery.Destination.Burial.{deliver_to_destination-move_to_dlq, is_dead}
use webhook_mind.Api.Dlq.{DeadFaults, DeadState, handle_retry_dlq, resolve_dlq_entry, resolve_row}
use webhook_mind.Api.Dlq.Retried.{Other, find_entry-Other, remove_first-Other, remove_first_head}

-- The two queues of dead letters after a delivery.
abbrev pub dead_state : Ledger → DeadState
dead_state l = record { queue = l.queue; dead_letters = l.dead_letters }

abbrev with_queue : List DeadLetterEntry → RedisQueue → DeadState
with_queue rows q = record { queue = q; dead_letters = rows }

-- Redis and the database answer every call.
abbrev pub all_work : DeadFaults
all_work = record {
  has_queue = true;
  find_fails = false;
  enqueue_fails = false;
  remove_fails = false;
  resolve_fails = false;
}

-- No row of an event is left open.
abbrev pub AllResolved : String → List DeadLetterEntry → Type 0
AllResolved event_id rows =
    All (λ (e : DeadLetterEntry). e.event_id ≡ event_id → e.resolved ≡ true) rows

resolve_row_lem :
    (event_id : String) (e : DeadLetterEntry)
    → (resolve_row event_id e).event_id ≡ event_id
    → (resolve_row event_id e).resolved ≡ true
resolve_row_lem event_id e h = elim (Bool-cases (str_eq e.event_id event_id)) [
  | inl same ↦ elim (Bool-cases e.resolved) [
    | inl before ↦ rw (same, before) refl
    | inr now ↦ rw (same, now) refl
  ]
  | inr other ↦
      let e_id : e.event_id ≡ event_id = rw other at h in
      absurd (ground (arith, eq_iff e.event_id event_id))
]

resolve_row-AllResolved :
    (event_id : String) (rows : List DeadLetterEntry)
    → AllResolved event_id (map (resolve_row event_id) rows)
resolve_row-AllResolved event_id [] = tt
resolve_row-AllResolved event_id (e ∷ rows) =
    (resolve_row_lem event_id e, resolve_row-AllResolved event_id rows)

module _ (marshal : WebhookEvent → List ℕ) (unmarshal : List ℕ → Option WebhookEvent) where
  -- An event that is the only one of its identifier, at the end of the list.
  find_entry_end :
      (event : WebhookEvent) (entries : List (List ℕ)) (raw : List ℕ)
      → find_entry marshal unmarshal event.id entries ≡ none
      → unmarshal raw ≡ some event
      → (find_entry marshal unmarshal event.id (entries ++ raw ∷ []) ≡ some (raw, event))
        × (remove_first raw (entries ++ raw ∷ []) ≡ entries)
  find_entry_end event [] raw absent good = (
    unfold find_entry in rw (good, find_entry) (rw (eq_refl event.id) refl),
    remove_first_head marshal unmarshal raw [],
  )
  find_entry_end event (r ∷ rs) raw absent good =
      let passed : Other marshal unmarshal event.id r
          → (find_entry marshal unmarshal event.id (r ∷ (rs ++ raw ∷ [])) ≡ some (raw, event))
            × (remove_first raw (r ∷ (rs ++ raw ∷ [])) ≡ r ∷ rs) =
        λ other.
          let (found, removed) =
            find_entry_end event rs raw
              (sym (find_entry-Other marshal unmarshal event.id r rs other) ∙ absent) good in
          (
            find_entry-Other marshal unmarshal event.id r (rs ++ raw ∷ []) other ∙ found,
            remove_first-Other marshal unmarshal event.id r raw (rs ++ raw ∷ []) event other good
                  refl
                ∙ ap (λ l. r ∷ l) removed,
          ) in
      elim (Option-cases (unmarshal r)) [
        | inl bad ↦ passed (λ e h. absurd (ground arith))
        | inr (e, ok) ↦ elim (Bool-cases (str_eq e.id event.id)) [
          | inl same ↦
              let found : find_entry marshal unmarshal event.id (r ∷ rs) ≡ some (r, e) =
                unfold find_entry in rw (ok, find_entry) (rw same refl) in
              absurd (ground arith)
          | inr other ↦ passed (λ e' h.
              let e_eq : e ≡ e' = ground arith in
              ap (λ (x : WebhookEvent). str_eq x.id event.id) (sym e_eq) ∙ other)
        ]
      ]

  retry_last :
      (event : WebhookEvent) (q : RedisQueue) (rows : List DeadLetterEntry)
      → find_entry marshal unmarshal event.id q.dlq_list ≡ none
      → unmarshal (marshal event) ≡ some event
      → handle_retry_dlq marshal unmarshal all_work event.id (record {
        queue = record q { dlq_list = q.dlq_list ++ marshal event ∷ [] };
        dead_letters = rows;
      })
        ≡ (
          200,
          record {
            queue = record q { delivery_list = q.delivery_list ++ marshal event ∷ [] };
            dead_letters = map (resolve_row event.id) rows;
          },
        )
  unfolding handle_retry_dlq find_dlq_entry
  retry_last event q rows absent good =
      let (found, removed) = find_entry_end event q.dlq_list (marshal event) absent good in
      rw found (unfold enqueue remove_dlq_entry resolve_dlq_entry in rw removed refl)

  -- If a delivery ends refused or exhausted, with Redis and the table of dead letters working, no
  -- earlier dead letter of the event, and an event that its JSON gives back: then a retry of it,
  -- when its calls work, answers 200, the lists are those from before the delivery with the event at
  -- the end of the delivery list, and no row of the event is open.
  pub handle_retry_dlq-deliver_to_destination :
      (run : Run) (event : WebhookEvent) (dest : Destination) (l : Ledger)
      → run.redis_fails ≡ false
      → run.dead_letter_fails ≡ false
      → find_entry marshal unmarshal event.id l.queue.dlq_list ≡ none
      → unmarshal (marshal event) ≡ some event
      → let (o, l') = deliver_to_destination marshal unmarshal run event dest l in
        is_dead o ≡ true
        → let (status, s) = handle_retry_dlq marshal unmarshal all_work event.id (dead_state l') in
          (status ≡ 200)
          × (s.queue
              ≡ record (l.queue) { delivery_list = l.queue.delivery_list ++ marshal event ∷ [] })
          × AllResolved event.id s.dead_letters
  handle_retry_dlq-deliver_to_destination run event dest l up written absent good dead =
      let l' = (deliver_to_destination marshal unmarshal run event dest l).1 in
      let (reason, letters, queue) =
        (deliver_to_destination-move_to_dlq marshal unmarshal run event dest l up written).0 dead in
      let after : dead_state l' ≡ record {
        queue = record (l.queue) { dlq_list = l.queue.dlq_list ++ marshal event ∷ [] };
        dead_letters = l'.dead_letters;
      } =
        ap (with_queue l'.dead_letters) queue in
      let e : handle_retry_dlq marshal unmarshal all_work event.id (dead_state l') ≡ (
        200,
        record {
          queue = record (l.queue) { delivery_list = l.queue.delivery_list ++ marshal event ∷ [] };
          dead_letters = map (resolve_row event.id) l'.dead_letters;
        },
      ) =
        ap (handle_retry_dlq marshal unmarshal all_work event.id) after
        ∙ retry_last event l.queue l'.dead_letters absent good in
      (
        ap (λ (r : ℕ × DeadState). r.0) e,
        ap (λ (r : ℕ × DeadState). r.1.queue) e,
        subst (λ (r : ℕ × DeadState). AllResolved event.id r.1.dead_letters) (sym e)
            (resolve_row-AllResolved event.id l'.dead_letters),
      )
