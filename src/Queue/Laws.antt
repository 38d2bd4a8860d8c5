-- ===== src/Queue/Laws.antt =====
-- The lists as queues: an entry comes out after those that were there before it.
use webhook_mind.Prelude.{
  Bool-cases, In, List, Option, Option-cases, String, [], ap, arith, eq_iff, false, head, inl, inr,
  some, str_eq, subst, tail, ℕ, ◌∙◌, ◌∷◌, ◌≡◌,
}
use webhook_mind.Models.{WebhookEvent}
use webhook_mind.Queue.{
  QueueName, RedisQueue, delivery, dequeue, dlq, enqueue, extraction, find_entry, got, incoming,
  list_of,
}

module _ (marshal : WebhookEvent → List ℕ) (unmarshal : List ℕ → Option WebhookEvent)
    (round_trip : (e : WebhookEvent) → unmarshal (marshal e) ≡ some e) where
  -- An event that is enqueued on an empty list is the next to come out, and leaves the queue as it
  -- was before.
  pub dequeue-enqueue :
      (key : QueueName) (event : WebhookEvent) (q q' : RedisQueue)
      → list_of key q ≡ []
      → enqueue marshal unmarshal false key event q ≡ some q'
      → dequeue marshal unmarshal false key q' ≡ (got event, q)
  unfolding enqueue dequeue
  dequeue-enqueue incoming event q q' e h = ground (arith, round_trip event)
  dequeue-enqueue delivery event q q' e h = ground (arith, round_trip event)
  dequeue-enqueue extraction event q q' e h = ground (arith, round_trip event)
  dequeue-enqueue dlq event q q' e h = ground (arith, round_trip event)

-- The entry that `find_entry` returns stands in the list and decodes to the event it returns, which
-- has the identifier that was asked for.
pub find_entry_sound :
    (marshal : WebhookEvent → List ℕ) (unmarshal : List ℕ → Option WebhookEvent) (event_id : String)
    (entries : List (List ℕ)) (raw : List ℕ) (event : WebhookEvent)
    → find_entry marshal unmarshal event_id entries ≡ some (raw, event)
    → In raw entries × (unmarshal raw ≡ some event) × (event.id ≡ event_id)
unfolding find_entry
find_entry_sound marshal unmarshal event_id [] raw event h = cc
find_entry_sound marshal unmarshal event_id (r ∷ rs) raw event h =
    let later : find_entry marshal unmarshal event_id rs ≡ some (raw, event)
        → In raw (r ∷ rs) × (unmarshal raw ≡ some event) × (event.id ≡ event_id) =
      λ h'.
        let (found, ok, same) = find_entry_sound marshal unmarshal event_id rs raw event h' in
        (tail found, ok, same) in
    elim (Option-cases (unmarshal r)) [
      | inl bad ↦ later (rw (bad, find_entry) at h)
      | inr (e, good) ↦ elim (Bool-cases (str_eq e.id event_id)) [
        | inl same ↦
            let raw_eq : r ≡ raw = ground arith in
            let event_eq : e ≡ event = ground arith in
            (
              subst (λ x. In x (r ∷ rs)) raw_eq head,
              rw (← raw_eq) (good ∙ ap some event_eq),
              rw (← event_eq) ((eq_iff e.id event_id).0 same),
            )
        | inr other ↦ later (ground arith)
      ]
    ]
