-- ===== src/Delivery/Event.antt =====
-- internal/delivery/engine.go: `deliverEvent`, and a round of a worker of `Run`. The deliveries to the
-- destinations, which run concurrently, are made one after another; what each meets is given.
-- `json.Unmarshal` of a body and `gocql.ParseUUID` are parameters, as are those of the routing.
pub mod Settled
use webhook_mind.Prelude.{
  Bool, List, Option, String, [], if◌then◌else◌, ltb, map, none, some, ℕ, ◌&&◌, ◌++◌, ◌∷◌,
}
use webhook_mind.Json.{Fields}
use webhook_mind.Models.{WebhookEvent}
use webhook_mind.Queue.{Dequeued, delivery, dequeue, got}
use webhook_mind.Routing.{Condition, Destination, RoutingStore, resolve_destinations}
use webhook_mind.Schema.Types.{DriftEvent, Faults, SchemaStore}
use webhook_mind.Schema.Inference.{update_schema}
use webhook_mind.Schema.Drift.{check_drift}
use webhook_mind.Store.Scylla.{StoredEvent, insert_event}
use webhook_mind.Delivery.Destination.{Ledger, Outcome, Run, deliver_to_destination}

-- `Engine`, in its settings. A publisher may be missing.
pub record Engine : Type 0 where
  pub max_retries : ℕ
  pub has_pub : Bool
  pub min_samples : ℕ

-- What an event meets: failures of Scylla, of the schema's two readers, and the clock; the state of
-- the routing tables; and the course of the delivery to each destination.
pub record World : Type 0 where
  pub scylla_fails : Bool
  pub inference_faults : Faults
  pub drift_faults : Faults
  pub now : ℕ
  pub drift_now : ℕ
  pub pipeline_ms : ℕ
  pub routing : RoutingStore
  pub course : Destination → Run

-- The data of a publication of the type `schema.drift`.
pub record DriftNotice : Type 0 where
  pub source_id : String
  pub event_id : String
  pub drift_type : String
  pub field_name : String

pub record Pipeline : Type 0 where
  pub scylla : List StoredEvent
  pub schemas : SchemaStore
  pub drift_notices : List DriftNotice
  pub pending_diffs : List (WebhookEvent × Fields)
  pub ledger : Ledger

-- The delivery to one destination is that of the engine's settings.
abbrev pub run_of : Engine → World → Destination → Run
run_of engine world dest = record (world.course dest) {
  max_retries = engine.max_retries;
  has_pub = engine.has_pub;
}

abbrev pub notice_of : DriftEvent → DriftNotice
notice_of d = record {
  source_id = d.source_id;
  event_id = d.event_id;
  drift_type = d.drift_type;
  field_name = d.field_name;
}

module _ (parse_uuid : String → Option String) where
  abbrev kept : List StoredEvent → Option (List StoredEvent) → List StoredEvent
  kept rows none = rows
  kept rows (some rows') = rows'

  -- The write to Scylla, whose error is only logged.
  unfoldable pub keep_event : World → WebhookEvent → Pipeline → Pipeline
  unfolding insert_event
  keep_event world event p = record p {
    scylla = kept p.scylla (insert_event parse_uuid world.scylla_fails event p.scylla);
  }

-- What follows a body that is a JSON object: the schema, the drift from it, and the diff.
unfoldable pub observe_payload : Engine → World → WebhookEvent → Option Fields → Pipeline → Pipeline
unfolding update_schema check_drift
observe_payload engine world event none p = p
observe_payload engine world event (some payload) p =
    let inferred =
      update_schema world.inference_faults world.now event.source_id payload engine.min_samples
        p.schemas in
    let (drifts, schemas) =
      check_drift world.drift_now event.source_id event.id world.drift_faults payload inferred in
    record p {
      schemas = schemas;
      drift_notices =
          if engine.has_pub then p.drift_notices ++ map notice_of drifts else p.drift_notices;
      pending_diffs = p.pending_diffs ++ (event, payload) ∷ [];
    }

-- The latency from the receipt on, when it is not zero.
unfoldable pub record_pipeline : Engine → World → Pipeline → Pipeline
record_pipeline engine world p =
    if engine.has_pub && ltb 0 world.pipeline_ms
    then record p {
      ledger = record (p.ledger) { latencies = p.ledger.latencies ++ world.pipeline_ms ∷ [] };
    }
    else p

module _ (marshal : WebhookEvent → List ℕ) (unmarshal : List ℕ → Option WebhookEvent)
    (parse_uuid : String → Option String) (format_float : ℕ → String)
    (parse_float : String → Option ℕ) (parse_body : List ℕ → Option Fields)
    (parse_conditions : List ℕ → Option (List Condition)) where
  -- The fan-out, with the outcome of each delivery.
  unfoldable pub fan_out :
      Engine
      → World
      → WebhookEvent
      → List Destination
      → Ledger
      → List (Destination × Outcome) × Ledger
  unfolding deliver_to_destination
  fan_out engine world event [] l = ([], l)
  fan_out engine world event (dest ∷ dests) l =
      let (o, l₁) =
        deliver_to_destination marshal unmarshal (run_of engine world dest) event dest l in
      let (outcomes, l₂) = fan_out engine world event dests l₁ in ((dest, o) ∷ outcomes, l₂)

  abbrev pub deliver_resolved :
      Engine
      → World
      → WebhookEvent
      → Pipeline
      → Option (List Destination)
      → List (Destination × Outcome) × Pipeline
  deliver_resolved engine world event p none = ([], p)
  deliver_resolved engine world event p (some dests) =
      let (outcomes, l) = fan_out engine world event dests p.ledger in
      (outcomes, record p { ledger = l })

  -- `deliverEvent`
  unfoldable pub deliver_event :
      Engine → World → WebhookEvent → Pipeline → List (Destination × Outcome) × Pipeline
  unfolding keep_event observe_payload record_pipeline fan_out
  deliver_event engine world event p =
      deliver_resolved engine world event
        (record_pipeline engine world (
          observe_payload engine world event (parse_body event.raw_body)
            (keep_event parse_uuid world event p)))
        (resolve_destinations format_float parse_float parse_body parse_conditions world.routing
          event.source_id event.raw_body)

  abbrev work_on : Engine → World → Pipeline → Dequeued → List (Destination × Outcome) × Pipeline
  work_on engine world p (got event) = deliver_event engine world event p
  work_on engine world p _ = ([], p)

  -- A round of a worker: an error of Redis, or an empty list, leads to the next.
  unfoldable pub work_once :
      Bool → Engine → World → Pipeline → List (Destination × Outcome) × Pipeline
  unfolding deliver_event dequeue
  work_once fails engine world p =
      let (taken, queue) = dequeue marshal unmarshal fails delivery p.ledger.queue in
      work_on engine world (record p { ledger = record (p.ledger) { queue = queue } }) taken
