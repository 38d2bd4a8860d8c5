-- ===== src/Tests/Event.antt =====
-- A run of the delivery of an event to two destinations, of which one refuses it.
use webhook_mind.Prelude.{
  All, Bool-cases, List, Option, String, [], arith, false, if◌then◌else◌, inl, inr, length, map,
  none, refl, some, str_eq, true, ℕ, ◌∷◌, ◌≡◌,
}
use webhook_mind.Json.{Fields, end}
use webhook_mind.Routing.{Condition, Destination, resolve_destinations}
use webhook_mind.Schema.Types.{Faults}
use webhook_mind.Delivery.Destination.{Outcome, delivered, refused}
use webhook_mind.Delivery.Event.{Engine, Pipeline, World, deliver_event}
use webhook_mind.Delivery.Event.Settled.{Settled, deliver_event-Settled}
use webhook_mind.Tests.Delivery.{answers, empty, event, of_raw, run_with, sink, to_raw}

abbrev same_text : String → Option String
same_text id = some id

abbrev no_float : ℕ → String
no_float b = ""

abbrev not_a_float : String → Option ℕ
not_a_float s = none

abbrev empty_object : List ℕ → Option Fields
empty_object raw = some end

abbrev no_conditions : List ℕ → Option (List Condition)
no_conditions raw = none

abbrev no_faults : Faults
no_faults = record { get_fails = false; upsert_fails = false; insert_fails = λ i. false }

abbrev other : Destination
other = record sink { id = "d2"; url = "http://other" }

abbrev two_sinks : List Destination
two_sinks = sink ∷ other ∷ []

abbrev engine : Engine
engine = record { max_retries = 4; has_pub = true; min_samples = 3 }

abbrev world : World
world = record {
  scylla_fails = false;
  inference_faults = no_faults;
  drift_faults = no_faults;
  now = 0;
  drift_now = 0;
  pipeline_ms = 7;
  routing = record {
    routing_rules = [];
    destinations = two_sinks;
    rules_fail = false;
    destinations_fail = false;
    defaults_fail = false;
  };
  course = λ dest.
      if str_eq dest.id "d1"
      then run_with 4 (answers 503 2 200)
      else run_with 4 (answers 404 9 200);
}

abbrev start : Pipeline
start = record {
  scylla = [];
  schemas = record { payload_schemas = []; drift_events = [] };
  drift_notices = [];
  pending_diffs = [];
  ledger = empty;
}

deliver_event_test :
    let (outcomes, p) =
      deliver_event to_raw of_raw same_text no_float not_a_float empty_object no_conditions engine
        world event start in
    (outcomes ≡ (sink, delivered) ∷ (other, refused) ∷ [])
    × (length p.scylla ≡ 1)
    × (length p.ledger.dead_letters ≡ 1)
    × (p.ledger.queue.dlq_list ≡ to_raw event ∷ [])
unfolding deliver_event resolve_destinations
deliver_event_test = (refl, refl, refl, refl)

same_course : (dest : Destination) (j : ℕ) → (world.course dest).context_done j ≡ false
same_course dest j = elim (Bool-cases (str_eq dest.id "d1")) [
  | inl e ↦ rw e refl
  | inr e ↦ rw e refl
]

redis_works : (dest : Destination) → (world.course dest).redis_fails ≡ false
redis_works dest = elim (Bool-cases (str_eq dest.id "d1")) [ inl e ↦ rw e refl | inr e ↦ rw e refl ]

table_works : (dest : Destination) → (world.course dest).dead_letter_fails ≡ false
table_works dest = elim (Bool-cases (str_eq dest.id "d1")) [ inl e ↦ rw e refl | inr e ↦ rw e refl ]

deliver_event-Settled_example :
    let (outcomes, p') =
      deliver_event to_raw of_raw same_text no_float not_a_float empty_object no_conditions engine
        world event start in
    (map (λ (d : Destination × Outcome). d.0) outcomes ≡ two_sinks)
    × All
        (Settled to_raw of_raw same_text no_float not_a_float empty_object no_conditions engine
          world event p'.ledger)
        outcomes
unfolding resolve_destinations
deliver_event-Settled_example =
    deliver_event-Settled to_raw of_raw same_text no_float not_a_float empty_object no_conditions
      engine world event (omega arith) same_course redis_works table_works start two_sinks refl
