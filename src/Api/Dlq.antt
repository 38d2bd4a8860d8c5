-- ===== src/Api/Dlq.antt =====
-- internal/api/handlers_dashboard.go: `handleRetryDLQ` and `handleDiscardDLQ`, with the statement on
-- the table of dead letters that they issue (internal/store/postgres.go). The codecs of an event are
-- parameters, as in the queue.
pub mod Retried
pub mod Undone
use webhook_mind.Prelude.{
  Bool, List, Option, String, if◌then◌else◌, is_empty, map, none, not, some, str_eq, true, ℕ, ◌&&◌,
}
use webhook_mind.Models.{DeadLetterEntry, WebhookEvent}
use webhook_mind.Queue.{RedisQueue, delivery, enqueue, find_dlq_entry, remove_dlq_entry}

-- The state that the two handlers change.
pub record DeadState : Type 0 where
  pub queue : RedisQueue
  pub dead_letters : List DeadLetterEntry

-- Whether the server has a queue, and which calls fail.
pub record DeadFaults : Type 0 where
  pub has_queue : Bool
  pub find_fails : Bool
  pub enqueue_fails : Bool
  pub remove_fails : Bool
  pub resolve_fails : Bool

abbrev pub resolve_row : String → DeadLetterEntry → DeadLetterEntry
resolve_row event_id e =
    if str_eq e.event_id event_id && not e.resolved then record e { resolved = true } else e

-- `ResolveDLQEntry`; `none` is its error.
unfoldable pub resolve_dlq_entry :
    Bool → String → List DeadLetterEntry → Option (List DeadLetterEntry)
resolve_dlq_entry fails event_id rows =
    if fails then none else some (map (resolve_row event_id) rows)

abbrev pub rows_after : List DeadLetterEntry → Option (List DeadLetterEntry) → List DeadLetterEntry
rows_after rows none = rows
rows_after rows (some rows') = rows'

module _ (marshal : WebhookEvent → List ℕ) (unmarshal : List ℕ → Option WebhookEvent) where
  -- The clean-up after the event is queued again; its errors are dropped.
  abbrev pub cleaned : DeadFaults → String → List ℕ → RedisQueue → DeadState → ℕ × DeadState
  cleaned f event_id raw q s = (
    200,
    record {
      queue = remove_dlq_entry f.remove_fails raw q;
      dead_letters =
          rows_after s.dead_letters (resolve_dlq_entry f.resolve_fails event_id s.dead_letters);
    },
  )

  abbrev pub requeued : DeadFaults → String → List ℕ → DeadState → Option RedisQueue → ℕ × DeadState
  requeued f event_id raw s none = (500, s)
  requeued f event_id raw s (some q) = cleaned f event_id raw q s

  abbrev pub found_dead :
      DeadFaults → String → DeadState → Option (Option (List ℕ × WebhookEvent)) → ℕ × DeadState
  found_dead f event_id s none = (500, s)
  found_dead f event_id s (some none) = (404, s)
  found_dead f event_id s (some (some (raw, event))) =
      requeued f event_id raw s (enqueue marshal unmarshal f.enqueue_fails delivery event s.queue)

  -- `handleRetryDLQ`: the status of the answer, and the state after it.
  unfoldable pub handle_retry_dlq : DeadFaults → String → DeadState → ℕ × DeadState
  unfolding enqueue find_dlq_entry remove_dlq_entry resolve_dlq_entry
  handle_retry_dlq f event_id s =
      if f.has_queue
      then found_dead f event_id s (find_dlq_entry marshal unmarshal f.find_fails event_id s.queue)
      else (503, s)

  -- The entry that a discard drops; an entry of no bytes decodes to no event, so one that is found
  -- is never empty.
  abbrev pub dropped : Bool → RedisQueue → Option (Option (List ℕ × WebhookEvent)) → RedisQueue
  dropped fails q none = q
  dropped fails q (some none) = q
  dropped fails q (some (some (raw, event))) =
      if is_empty raw then q else remove_dlq_entry fails raw q

  abbrev pub resolved_rows : DeadState → Option (List DeadLetterEntry) → ℕ × DeadState
  resolved_rows s none = (500, s)
  resolved_rows s (some rows) = (200, record s { dead_letters = rows })

  -- `handleDiscardDLQ`
  unfoldable pub handle_discard_dlq : DeadFaults → String → DeadState → ℕ × DeadState
  unfolding find_dlq_entry remove_dlq_entry resolve_dlq_entry
  handle_discard_dlq f event_id s =
      let queue =
        if f.has_queue
        then dropped f.remove_fails s.queue
            (find_dlq_entry marshal unmarshal f.find_fails event_id s.queue)
        else s.queue in
      resolved_rows (record s { queue = queue })
        (resolve_dlq_entry f.resolve_fails event_id s.dead_letters)
