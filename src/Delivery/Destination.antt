-- ===== src/Delivery/Destination.antt =====
-- internal/delivery/engine.go: `deliverToDestination`, `attemptDelivery` and `moveToDLQ`. What the
-- destination answers, which writes fail and when the context ends are given for each attempt.
pub mod Verdict
pub mod Burial
pub mod Limits
pub mod Safe
use webhook_mind.Prelude.{
  Bool, List, Option, String, [], false, get_elem?, if◌then◌else◌, leb, ltb, none, some, suc, zero,
  ℕ, ◌&&◌, ◌++◌, ◌+◌, ◌-◌, ◌<>◌, ◌∷◌,
}
use webhook_mind.Json.Sprint.{decimal}
use webhook_mind.Models.{DeadLetterEntry, DeliveryAttempt, WebhookEvent}
use webhook_mind.Queue.{RedisQueue, dlq, enqueue}
use webhook_mind.Routing.{Destination}

-- What an attempt comes to: the request cannot be built, `http.Client.Do` fails, or it gives an
-- answer with this status.
pub data HttpAnswer : Type 0 where
  bad_request : String → HttpAnswer
  transport_error : String → HttpAnswer
  answered : ℕ → HttpAnswer

-- A POST that is handed to `http.Client.Do`. What the client sends for it, the requests to which
-- redirects lead included, is the library's; the answer is the last one.
pub record ClientRequest : Type 0 where
  pub url : String
  pub body : List ℕ
  pub headers : List (String × List ℕ)

-- A record of the event stream: its type, event, source and destination.
pub record Notice : Type 0 where
  pub type : String
  pub event_id : String
  pub source_id : String
  pub destination_id : String

-- The context of one delivery: the engine's setting, and what happens at each attempt.
pub record Run : Type 0 where
  pub max_retries : ℕ
  pub has_pub : Bool
  pub answer : ℕ → HttpAnswer
  pub duration_ms : ℕ → ℕ
  pub context_done : ℕ → Bool
  pub record_fails : ℕ → Bool
  pub redis_fails : Bool
  pub dead_letter_fails : Bool

pub record Ledger : Type 0 where
  pub requests : List ClientRequest
  pub attempts : List DeliveryAttempt
  pub waits : List ℕ
  pub queue : RedisQueue
  pub dead_letters : List DeadLetterEntry
  pub notices : List Notice
  pub latencies : List ℕ

-- How `deliverToDestination` ends; `panicked` is an index out of range.
pub data Outcome : Type 0 where
  delivered cancelled refused exhausted panicked : Outcome

-- `retryDelays`, in seconds.
abbrev pub retry_delays : List ℕ
retry_delays = 0 ∷ 5 ∷ 30 ∷ 120 ∷ []

-- The status code and the error of an attempt.
abbrev pub status_and_error : HttpAnswer → ℕ × Option String
status_and_error (bad_request e) = (0, some ("create request: " <> e))
status_and_error (transport_error e) = (0, some ("execute request: " <> e))
status_and_error (answered code) = (code, none)

abbrev pub request_of : WebhookEvent → Destination → HttpAnswer → List ClientRequest
request_of event dest (bad_request e) = []
request_of event dest _ =
    record { url = dest.url; body = event.raw_body; headers = event.headers } ∷ []

-- `attemptDelivery`: status, error, and the requests handed to the client. `http.Header.Set` on the captured headers,
-- whose keys are distinct, copies them.
unfoldable pub attempt_delivery :
    WebhookEvent → Destination → HttpAnswer → ℕ × Option String × List ClientRequest
attempt_delivery event dest a =
    let (status, err) = status_and_error a in (status, err, request_of event dest a)

abbrev pub is_success : ℕ → Option String → Bool
is_success status none = leb 200 status && ltb status 300
is_success status (some e) = false

abbrev pub error_text : Option String → String
error_text none = ""
error_text (some e) = e

unfoldable pub attempt_record : Run → WebhookEvent → Destination → ℕ → DeliveryAttempt
attempt_record run event dest attempt =
    let (status, err) = status_and_error (run.answer attempt) in
    record {
      event_id = event.id;
      source_id = event.source_id;
      destination_id = dest.id;
      attempt_number = attempt;
      status_code = status;
      success = is_success status err;
      error_message = error_text err;
      duration_ms = run.duration_ms attempt;
    }

abbrev pub notify : Run → WebhookEvent → Destination → String → Ledger → Ledger
notify run event dest type l =
    if run.has_pub
    then record l {
      notices =
          l.notices
          ++ record {
            type = type;
            event_id = event.id;
            source_id = event.source_id;
            destination_id = dest.id;
          }
            ∷ [];
    }
    else l

abbrev pub queue_after : RedisQueue → Option RedisQueue → RedisQueue
queue_after q none = q
queue_after q (some q') = q'

-- `InsertDeliveryAttempt` and `InsertDeadLetterEntry` of internal/store/postgres.go, whose errors are
-- only logged.
abbrev pub insert_delivery_attempt :
    Bool → DeliveryAttempt → List DeliveryAttempt → List DeliveryAttempt
insert_delivery_attempt fails attempt rows = if fails then rows else rows ++ attempt ∷ []

abbrev pub insert_dead_letter_entry :
    Bool → DeadLetterEntry → List DeadLetterEntry → List DeadLetterEntry
insert_dead_letter_entry fails entry rows = if fails then rows else rows ++ entry ∷ []

-- The attempt itself, up to the record of it in the database.
unfoldable pub make_attempt : Run → WebhookEvent → Destination → ℕ → Ledger → Ledger
unfolding attempt_delivery attempt_record
make_attempt run event dest attempt l =
    let (status, err, requests) = attempt_delivery event dest (run.answer attempt) in
    record l {
      requests = l.requests ++ requests;
      attempts =
          insert_delivery_attempt (run.record_fails attempt) (attempt_record run event dest attempt)
            l.attempts;
    }

-- After a success: two publications.
unfoldable pub succeed : Run → WebhookEvent → Destination → ℕ → Ledger → Ledger
succeed run event dest attempt l =
    let l' = notify run event dest "webhook.delivered" l in
    if run.has_pub
    then record l' { latencies = l'.latencies ++ run.duration_ms attempt ∷ [] }
    else l'

-- The wait before an attempt: none before the first.
pub data Waited : Type 0 where
  out_of_range : Waited
  interrupted : Waited
  waited : Ledger → Waited

unfoldable pub wait_for : Run → ℕ → Ledger → Waited
wait_for run attempt l =
    if ltb 1 attempt
    then elim (get_elem? retry_delays (attempt - 1)) [
      | none ↦ out_of_range
      | some delay ↦
          if run.context_done attempt
          then interrupted
          else waited (record l { waits = l.waits ++ delay ∷ [] })
    ]
    else waited l

-- The rest of a round once the attempt was made, before the next round.
pub data Decision : Type 0 where
  done : Outcome → Decision
  retry : Decision

unfoldable pub decide : HttpAnswer → Decision
decide a =
    let (status, err) = status_and_error a in
    if is_success status err
    then done delivered
    else if leb 400 status && ltb status 500
    then done refused
    else retry

module _ (marshal : WebhookEvent → List ℕ) (unmarshal : List ℕ → Option WebhookEvent) where
  -- `moveToDLQ`; the errors are only logged.
  unfoldable pub move_to_dlq : Run → WebhookEvent → Destination → String → Ledger → Ledger
  unfolding enqueue
  move_to_dlq run event dest reason l =
      let entry : DeadLetterEntry = record {
        event_id = event.id;
        source_id = event.source_id;
        destination_id = dest.id;
        raw_body = event.raw_body;
        headers = event.headers;
        failure_reason = reason;
        resolved = false;
      } in
      notify run event dest "dlq.added" (record l {
        queue = queue_after l.queue (enqueue marshal unmarshal run.redis_fails dlq event l.queue);
        dead_letters = insert_dead_letter_entry run.dead_letter_fails entry l.dead_letters;
      })

  unfoldable pub exhaust : Run → WebhookEvent → Destination → Ledger → Ledger
  unfolding move_to_dlq decimal
  exhaust run event dest l =
      move_to_dlq run event dest ("exhausted " <> decimal run.max_retries <> " delivery attempts")
        (notify run event dest "delivery.failed" l)

  unfoldable pub refuse : Run → WebhookEvent → Destination → ℕ → Ledger → Ledger
  unfolding move_to_dlq decimal
  refuse run event dest status l =
      move_to_dlq run event dest ("permanent failure: HTTP " <> decimal status) l

  -- The end of a round, with what the next round does.
  abbrev pub after_attempt :
      (Ledger → Outcome × Ledger)
      → Run
      → WebhookEvent
      → Destination
      → ℕ
      → Ledger
      → Decision
      → Outcome × Ledger
  after_attempt next run event dest attempt l (done delivered) =
      (delivered, succeed run event dest attempt l)
  after_attempt next run event dest attempt l (done o) =
      (o, refuse run event dest (status_and_error (run.answer attempt)).0 l)
  after_attempt next run event dest attempt l retry = next l

  abbrev pub after_wait :
      (Ledger → Outcome × Ledger)
      → Run
      → WebhookEvent
      → Destination
      → ℕ
      → Ledger
      → Waited
      → Outcome × Ledger
  after_wait next run event dest attempt l out_of_range = (panicked, l)
  after_wait next run event dest attempt l interrupted = (cancelled, l)
  after_wait next run event dest attempt l (waited l') =
      after_attempt next run event dest attempt (make_attempt run event dest attempt l')
        (decide (run.answer attempt))

  -- The loop of `deliverToDestination`, by the rounds that are left.
  unfoldable pub deliver_from : ℕ → ℕ → Run → WebhookEvent → Destination → Ledger → Outcome × Ledger
  unfolding wait_for make_attempt decide succeed refuse exhaust
  deliver_from zero attempt run event dest l = (exhausted, exhaust run event dest l)
  deliver_from (suc left) attempt run event dest l =
      after_wait (deliver_from left (attempt + 1) run event dest) run event dest attempt l
        (wait_for run attempt l)

  -- `deliverToDestination`
  unfoldable pub deliver_to_destination :
      Run → WebhookEvent → Destination → Ledger → Outcome × Ledger
  unfolding deliver_from
  deliver_to_destination run event dest l = deliver_from run.max_retries 1 run event dest l
