-- ===== src/Tests/Config.antt =====
-- Settings from environments that leave most variables out, and diffs of two payloads.
use webhook_mind.Prelude.{
  List, Option, String, [], false, if◌then◌else◌, inl, is_some, length, lookup, none, pos, refl,
  some, str_eq, true, ℕ, ℤ, ◌∷◌, ◌≡◌, ◌≢◌,
}
use webhook_mind.Json.{Fields, end, member, null, num, str}
use webhook_mind.Models.{DeliveryAttempt}
use webhook_mind.Delivery.Destination.{deliver_to_destination, panicked}
use webhook_mind.Schema.Flatten.{flatten_json}
use webhook_mind.Store.Scylla.{StoredEvent}
use webhook_mind.Delivery.Diff.{compute_diff_async, diff_of}
use webhook_mind.Delivery.Diff.Changes.{change_of, diff_of_lem}
use webhook_mind.Config.{Config, env_or_default_int, level_warn, load, settings}
use webhook_mind.Config.Defaults.{deliver_to_destination-load}
use webhook_mind.Tests.Delivery.{answers, empty, event, of_raw, run_with, sink, to_raw}

-- Stand-ins: "3" is the only number, text stays as it is, and nothing is split.
abbrev reads_3 : String → Option ℤ
reads_3 s = if str_eq s "3" then some (pos 3) else none

abbrev as_is : String → String
as_is s = s

abbrev one_part : String → List String
one_part s = s ∷ []

abbrev env : String → String
env key =
    if str_eq key "POSTGRES_DSN"
    then "postgres://db"
    else if str_eq key "REDIS_ADDR"
    then "redis:6379"
    else if str_eq key "LOG_LEVEL"
    then "warn"
    else ""

unfoldable loaded : Config
unfolding settings
loaded = settings reads_3 as_is one_part env "postgres://db" "redis:6379"

log_level_test : loaded.log_level ≡ level_warn
unfolding loaded
log_level_test = refl

env_loads : load reads_3 as_is one_part env ≡ some loaded
unfolding load loaded
env_loads = refl

retries_default : loaded.delivery.max_retries ≡ pos 4
unfolding loaded env_or_default_int
retries_default = refl

deliver_to_destination-load_example :
    (deliver_to_destination to_raw of_raw (run_with 4 (answers 503 9 200)) event sink empty).0
    ≢ panicked
deliver_to_destination-load_example =
    deliver_to_destination-load reads_3 as_is one_part env loaded to_raw of_raw
      (run_with 4 (answers 503 9 200)) event sink empty env_loads retries_default (inl refl)

abbrev print_float : ℕ → String
print_float b = "1"

-- {"a": "x", "b": "1"} after {"b": 1, "c": null}.
abbrev current : Fields
current = member "a" (str "x") (member "b" (str "1") end)

abbrev previous : Fields
previous = member "b" (num 1) (member "c" null end)

-- A number and its text print the same, so the field is not in the diff.
diff_test :
    diff_of print_float current previous
    ≡ record { added = ("a", str "x") ∷ []; removed = ("c", null) ∷ []; changed = [] }
unfolding diff_of
diff_test = refl

diff_of_lem_example :
    (lookup "a" (diff_of print_float current previous).added ≡ (
      if is_some (lookup "a" (flatten_json previous))
      then none
      else lookup "a" (flatten_json current)))
    × (lookup "a" (diff_of print_float current previous).removed ≡ (
        if is_some (lookup "a" (flatten_json current))
        then none
        else lookup "a" (flatten_json previous)))
    × (lookup "a" (diff_of print_float current previous).changed
        ≡ change_of print_float
            (lookup "a" (flatten_json previous))
            (lookup "a" (flatten_json current)))
diff_of_lem_example = diff_of_lem print_float "a" current previous

abbrev sent : DeliveryAttempt
sent = record {
  event_id = "e0";
  source_id = "shop";
  destination_id = "d1";
  attempt_number = 1;
  status_code = 200;
  success = true;
  error_message = "";
  duration_ms = 3;
}

abbrev stored : StoredEvent
stored = record {
  source_id = "shop";
  received_ms = 1;
  event_id = "e0";
  raw_body = [];
  headers = [];
}

compute_diff_test :
    length (
      compute_diff_async print_float
        (λ id. some id)
        (λ raw. some previous)
        (record { previous_fails = false; event_fails = false; insert_fails = false })
        (sent ∷ [])
        (stored ∷ [])
        event
        current
        [])
    ≡ 1
unfolding compute_diff_async
compute_diff_test = refl
