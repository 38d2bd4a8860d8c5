-- ===== src/Tests/Delivery.antt =====
-- Runs of a delivery.
use webhook_mind.Prelude.{
  All, List, Option, String, [], arith, codes, false, if◌then◌else◌, length, ltb, none, refl, some,
  suc, true, zero, ℕ, ◌++◌, ◌∷◌, ◌≡◌, ◌≤◌, ◌⊎◌,
}
use webhook_mind.Models.{WebhookEvent}
use webhook_mind.Routing.{Destination}
use webhook_mind.Store.Scylla.{StoredEvent, to_stored}
use webhook_mind.Delivery.Recovery.{Incomplete, due, recover_incomplete, recover_incomplete_lem}
use webhook_mind.Delivery.Destination.{
  ClientRequest, HttpAnswer, Ledger, Run, answered, deliver_to_destination, delivered, exhausted,
  panicked, refused,
}
use webhook_mind.Delivery.Destination.Burial.{
  deliver_to_destination-move_to_dlq, entry_for, is_dead,
}
use webhook_mind.Delivery.Destination.Verdict.{
  IsRetried, code_4xx, deliver_to_destination_verdict, from_500,
}
use webhook_mind.Delivery.Destination.Limits.{
  IsOwnRequest, built_in, deliver_to_destination_bounds, deliver_to_destination_panics, sum,
}

-- A stand-in for the JSON of an event: its body, and one event for each body.
abbrev pub event_with : List ℕ → WebhookEvent
event_with body = record {
  id = "e1";
  source_id = "shop";
  received_at = 0;
  raw_body = body;
  headers = [];
  file_url = "";
  file_store_path = "";
  extracted_data = none;
  extraction_ms = 0;
  api_key_override = [];
  provider_override = "";
  model_override = [];
}

abbrev pub to_raw : WebhookEvent → List ℕ
to_raw e = e.raw_body

abbrev pub of_raw : List ℕ → Option WebhookEvent
of_raw raw = some (event_with raw)

abbrev pub event : WebhookEvent
event = event_with (codes "{}")

abbrev pub sink : Destination
sink = record {
  id = "d1";
  source_id = "shop";
  name = "sink";
  url = "http://sink";
  timeout_seconds = 10;
  is_active = true;
  is_default = true;
}

abbrev pub empty : Ledger
empty = record {
  requests = [];
  attempts = [];
  waits = [];
  queue = record { incoming_list = []; delivery_list = []; extraction_list = []; dlq_list = [] };
  dead_letters = [];
  notices = [];
  latencies = [];
}

-- A destination that answers by a code until an attempt, and by another from there on.
abbrev pub answers : ℕ → ℕ → ℕ → ℕ → HttpAnswer
answers before turn after attempt = answered (if ltb attempt turn then before else after)

abbrev pub run_with : ℕ → (ℕ → HttpAnswer) → Run
run_with retries answer = record {
  max_retries = retries;
  has_pub = true;
  answer = answer;
  duration_ms = λ attempt. 12;
  context_done = λ attempt. false;
  record_fails = λ attempt. false;
  redis_fails = false;
  dead_letter_fails = false;
}

third_time :
    let (o, l) =
      deliver_to_destination to_raw of_raw (run_with 4 (answers 503 3 200)) event sink empty in
    (o ≡ delivered) × (l.waits ≡ 5 ∷ 30 ∷ []) × (length l.attempts ≡ 3) × (l.dead_letters ≡ [])
unfolding deliver_to_destination
third_time = (refl, refl, refl, refl)

unavailable : IsRetried (answered 503)
unavailable = from_500 503 (omega arith)

deliver_to_destination_verdict_example :
    (deliver_to_destination to_raw of_raw (run_with 4 (answers 503 3 404)) event sink empty).0
    ≡ refused
deliver_to_destination_verdict_example =
    ((deliver_to_destination_verdict to_raw of_raw (run_with 4 (answers 503 3 404)) event sink empty
          (omega arith) (λ j. refl)).0
        2 (omega arith)
        (elim [
          | zero ↦ λ h. unavailable
          | suc zero ↦ λ h. unavailable
          | suc (suc j) ↦ λ h. absurd (omega arith)
        ])).1
      (code_4xx 404 (omega arith) (omega arith))

deliver_to_destination-move_to_dlq_example :
    let (o, l') =
      deliver_to_destination to_raw of_raw (run_with 2 (answers 503 9 200)) event sink empty in
    (is_dead o ≡ true
      → (reason : String) × (l'.dead_letters
          ≡ empty.dead_letters
            ++ entry_for to_raw of_raw (run_with 2 (answers 503 9 200)) event sink reason ∷ [])
        × (l'.queue
            ≡ record (empty.queue) { dlq_list = empty.queue.dlq_list ++ to_raw event ∷ [] }))
    × (is_dead o ≡ false → (l'.dead_letters ≡ empty.dead_letters) × (l'.queue ≡ empty.queue))
deliver_to_destination-move_to_dlq_example =
    deliver_to_destination-move_to_dlq to_raw of_raw (run_with 2 (answers 503 9 200)) event sink
      empty refl refl

deliver_to_destination_bounds_example :
    let run = run_with 2 (answers 503 9 200) in
    let (o, l) = deliver_to_destination to_raw of_raw run event sink empty in
    ((ps : List ClientRequest) × (k : ℕ) × (l.requests ≡ ps)
      × (k ≤ 2)
      × (length ps ≡ built_in to_raw of_raw run event sink 1 k)
      × All (IsOwnRequest to_raw of_raw run event sink) ps
      × (o ≡ exhausted → k ≡ 2)
      × ((o ≡ delivered) ⊎ (o ≡ refused) → 1 ≤ k))
    × (sum l.waits ≤ 155)
deliver_to_destination_bounds_example =
    deliver_to_destination_bounds to_raw of_raw (run_with 2 (answers 503 9 200)) event sink empty

deliver_to_destination_panics_example :
    (deliver_to_destination to_raw of_raw (run_with 6 (answers 503 9 200)) event sink empty).0
    ≡ panicked
deliver_to_destination_panics_example =
    deliver_to_destination_panics to_raw of_raw (run_with 6 (answers 503 9 200)) event sink empty 1
      refl (λ j. refl)
      (elim [
        | zero ↦ λ h. unavailable
        | suc zero ↦ λ h. unavailable
        | suc (suc zero) ↦ λ h. unavailable
        | suc (suc (suc zero)) ↦ λ h. unavailable
        | suc (suc (suc (suc j))) ↦ λ h. absurd (omega arith)
      ])

abbrev row : ℕ → ℕ → Incomplete
row attempt_number elapsed = record {
  event_id = event.id;
  source_id = event.source_id;
  attempt_number = attempt_number;
  elapsed = elapsed;
  fetch_fails = false;
  enqueue_fails = false;
}

abbrev as_text : String → Option String
as_text id = some id

abbrev stored : List StoredEvent
stored = to_stored event.id event ∷ []

recover_run :
    (recover_incomplete to_raw of_raw as_text stored
      (some (row 1 4 ∷ row 2 30 ∷ row 4 0 ∷ record (row 4 0) { event_id = "e9" } ∷ []))
      empty.queue).delivery_list
    ≡ to_raw event ∷ to_raw event ∷ []
unfolding recover_incomplete
recover_run = refl

recover_incomplete_lem_example :
    recover_incomplete to_raw of_raw as_text stored (some (row 1 4 ∷ row 2 30 ∷ [])) empty.queue
    ≡ record (empty.queue) {
      delivery_list =
          empty.queue.delivery_list ++ due to_raw of_raw as_text stored (row 1 4 ∷ row 2 30 ∷ []);
    }
recover_incomplete_lem_example =
    recover_incomplete_lem to_raw of_raw as_text stored (row 1 4 ∷ row 2 30 ∷ []) empty.queue
