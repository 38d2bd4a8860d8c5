-- ===== src/Delivery/Diff.antt =====
-- internal/delivery/engine.go: `computeDiffAsync`, with the statements on the tables of attempts and
-- of diffs (internal/store/postgres.go). The row of a diff has its data before it is written as JSON.
-- `json.Unmarshal` of a body, `gocql.ParseUUID` and what `%v` writes for a float64 are parameters.
pub mod Changes
use webhook_mind.Prelude.{
  Bool, List, Option, String, [], if◌then◌else◌, is_some, lookup, none, not, some, str_eq, ℕ, ◌&&◌,
  ◌++◌, ◌∷◌,
}
use webhook_mind.Json.{Fields, Json}
use webhook_mind.Json.Sprint.{sprint}
use webhook_mind.Models.{DeliveryAttempt, WebhookEvent}
use webhook_mind.Schema.Flatten.{flatten_json}
use webhook_mind.Store.Scylla.{StoredEvent, get_event}

pub record Change : Type 0 where
  pub old_value : Json
  pub new_value : Json

-- What differs: fields that are new, fields that are gone, and fields with the old and the new value.
pub record Diff : Type 0 where
  pub added : List (String × Json)
  pub removed : List (String × Json)
  pub changed : List (String × Change)

-- A row of `webhook_diffs`.
pub record WebhookDiff : Type 0 where
  pub event_id : String
  pub source_id : String
  pub prev_event_id : String
  pub diff_data : Diff

-- Which calls fail.
pub record DiffFaults : Type 0 where
  pub previous_fails : Bool
  pub event_fails : Bool
  pub insert_fails : Bool

abbrev pub is_previous : String → String → DeliveryAttempt → Bool
is_previous source_id current_event_id a =
    str_eq a.source_id source_id && a.success && not (str_eq a.event_id current_event_id)

abbrev pub or_later : String → Option String → Option String
or_later id none = some id
or_later id (some later) = some later

-- The last of the rows that fit; they stand in the order of their times.
unfoldable pub last_previous : String → String → List DeliveryAttempt → Option String
last_previous source_id current_event_id [] = none
last_previous source_id current_event_id (a ∷ attempts) =
    let later = last_previous source_id current_event_id attempts in
    if is_previous source_id current_event_id a then or_later a.event_id later else later

-- `GetPreviousEventID`; `none` is its error, also where there is no row.
unfoldable pub get_previous_event_id : Bool → String → String → List DeliveryAttempt → Option String
unfolding last_previous
get_previous_event_id fails source_id current_event_id attempts =
    if fails then none else last_previous source_id current_event_id attempts

-- `InsertWebhookDiff`, whose error is only logged.
unfoldable pub insert_webhook_diff : Bool → WebhookDiff → List WebhookDiff → List WebhookDiff
insert_webhook_diff fails row rows = if fails then rows else rows ++ row ∷ []

-- The loop over the fields of the previous payload.
unfoldable pub gone_fields : List (String × Json) → List (String × Json) → List (String × Json)
unfolding lookup
gone_fields flat1 [] = []
gone_fields flat1 ((k, v) ∷ flat2) =
    let rest = gone_fields flat1 flat2 in if is_some (lookup k flat1) then rest else (k, v) ∷ rest

module _ (format_float : ℕ → String) where
  -- One round of the loop over the fields of the current payload, before the later ones.
  unfoldable pub note_field :
      String
      → Json
      → Option Json
      → List (String × Json) × List (String × Change)
      → List (String × Json) × List (String × Change)
  unfolding sprint
  note_field k v none (added, changed) = ((k, v) ∷ added, changed)
  note_field k v (some old) (added, changed) =
      if str_eq (sprint format_float v) (sprint format_float old)
      then (added, changed)
      else (added, (k, record { old_value = old; new_value = v }) ∷ changed)

  unfoldable pub compare_fields :
      List (String × Json) → List (String × Json) → List (String × Json) × List (String × Change)
  unfolding note_field lookup
  compare_fields flat2 [] = ([], [])
  compare_fields flat2 ((k, v) ∷ flat1) =
      note_field k v (lookup k flat2) (compare_fields flat2 flat1)

  -- The two loops.
  unfoldable pub diff_of : Fields → Fields → Diff
  unfolding compare_fields gone_fields flatten_json
  diff_of current previous =
      let (added, changed) = compare_fields (flatten_json previous) (flatten_json current) in
      record {
        added = added;
        removed = gone_fields (flatten_json current) (flatten_json previous);
        changed = changed;
      }

  module _ (parse_uuid : String → Option String) (parse_body : List ℕ → Option Fields) where
    abbrev pub diff_payloads :
        DiffFaults
        → WebhookEvent
        → Fields
        → String
        → Option Fields
        → List WebhookDiff
        → List WebhookDiff
    diff_payloads f event current prev_event_id none diffs = diffs
    diff_payloads f event current prev_event_id (some previous) diffs =
        insert_webhook_diff f.insert_fails
          (record {
            event_id = event.id;
            source_id = event.source_id;
            prev_event_id = prev_event_id;
            diff_data = diff_of current previous;
          })
          diffs

    abbrev pub diff_events :
        DiffFaults
        → WebhookEvent
        → Fields
        → String
        → Option WebhookEvent
        → List WebhookDiff
        → List WebhookDiff
    diff_events f event current prev_event_id none diffs = diffs
    diff_events f event current prev_event_id (some prev) diffs =
        diff_payloads f event current prev_event_id (parse_body prev.raw_body) diffs

    abbrev pub diff_previous :
        DiffFaults
        → List StoredEvent
        → WebhookEvent
        → Fields
        → Option String
        → List WebhookDiff
        → List WebhookDiff
    diff_previous f rows event current none diffs = diffs
    diff_previous f rows event current (some prev_event_id) diffs =
        diff_events f event current prev_event_id
          (get_event parse_uuid f.event_fails event.source_id prev_event_id rows) diffs

    -- `computeDiffAsync`
    unfoldable pub compute_diff_async :
        DiffFaults
        → List DeliveryAttempt
        → List StoredEvent
        → WebhookEvent
        → Fields
        → List WebhookDiff
        → List WebhookDiff
    unfolding get_previous_event_id get_event diff_of insert_webhook_diff
    compute_diff_async f attempts rows event current diffs =
        diff_previous f rows event current
          (get_previous_event_id f.previous_fails event.source_id event.id attempts) diffs
