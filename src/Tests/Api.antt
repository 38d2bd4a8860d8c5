-- ===== src/Tests/Api.antt =====
-- Retries of a dead letter.
use webhook_mind.Prelude.{[], refl, ◌++◌, ◌∷◌, ◌≡◌, ◌≢◌, ◌⊎◌}
use webhook_mind.Queue.{find_entry}
use webhook_mind.Delivery.Destination.{Ledger, Run, deliver_to_destination}
use webhook_mind.Api.Dlq.{handle_discard_dlq, handle_retry_dlq}
use webhook_mind.Api.Dlq.Retried.{IsRetriedFrom, handle_retry_dlq_lem}
use webhook_mind.Api.Dlq.Undone.{
  AllResolved, all_work, dead_state, handle_retry_dlq-deliver_to_destination,
}
use webhook_mind.Tests.Delivery.{answers, empty, event, of_raw, run_with, sink, to_raw}

abbrev burying : Run
burying = run_with 2 (answers 503 9 200)

abbrev buried : Ledger
buried = (deliver_to_destination to_raw of_raw burying event sink empty).1

handle_retry_dlq_lem_example :
    let (status, s') = handle_retry_dlq to_raw of_raw all_work "e1" (dead_state buried) in
    (status ≡ 200) × IsRetriedFrom to_raw of_raw all_work "e1" (dead_state buried) s'
    ⊎ (status ≢ 200) × (s' ≡ dead_state buried)
handle_retry_dlq_lem_example = handle_retry_dlq_lem to_raw of_raw all_work "e1" (dead_state buried)

handle_retry_dlq-deliver_to_destination_example :
    let (status, s) = handle_retry_dlq to_raw of_raw all_work "e1" (dead_state buried) in
    (status ≡ 200)
    × (s.queue
        ≡ record (empty.queue) { delivery_list = empty.queue.delivery_list ++ to_raw event ∷ [] })
    × AllResolved "e1" s.dead_letters
unfolding deliver_to_destination find_entry
handle_retry_dlq-deliver_to_destination_example =
    handle_retry_dlq-deliver_to_destination to_raw of_raw burying event sink empty refl refl refl
      refl refl

-- Nothing is found under another identifier, and a discard of what is there leaves no entry.
other_ends :
    ((handle_retry_dlq to_raw of_raw all_work "e2" (dead_state buried)).0 ≡ 404)
    × ((handle_discard_dlq to_raw of_raw all_work "e1" (dead_state buried)).1.queue.dlq_list ≡ [])
unfolding handle_retry_dlq handle_discard_dlq deliver_to_destination
other_ends = (refl, refl)
