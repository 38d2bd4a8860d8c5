-- ===== src/Store/Scylla.antt =====
-- internal/store/scylla.go: the table `webhook_events`, by the schema of migrations/scylla: a row for
-- each source, time in milliseconds and identifier, in each source the newest first. `gocql.ParseUUID`
-- is a parameter that gives the canonical text; rows of one time stay as they were inserted, and no row
-- expires.
pub mod Rows
pub mod Scans
pub mod Bodies
use webhook_mind.Prelude.{
  Bool, List, Option, String, [], drop, filter, if◌then◌else◌, leb, length, ltb, none, some, str_eq,
  take, ℕ, ◌&&◌, ◌*◌, ◌++◌, ◌/◌, ◌==◌, ◌∷◌,
}
use webhook_mind.Models.{WebhookEvent}

-- The columns. The overrides of an event have none.
pub record StoredEvent : Type 0 where
  pub source_id : String
  pub received_ms : ℕ
  pub event_id : String
  pub raw_body : List ℕ
  pub headers : List (String × List ℕ)

abbrev pub millisecond : ℕ
millisecond = 1000000

abbrev pub same_key : StoredEvent → StoredEvent → Bool
same_key a b =
    str_eq a.source_id b.source_id
    && (a.received_ms == b.received_ms)
    && str_eq a.event_id b.event_id

-- A write to the table: it replaces the row of the same key.
unfoldable pub place : StoredEvent → List StoredEvent → List StoredEvent
place row [] = row ∷ []
place row (r ∷ rows) =
    let later = place row rows in
    if same_key row r
    then row ∷ rows
    else if ltb r.received_ms row.received_ms
    then row ∷ r ∷ rows
    else r ∷ later

abbrev pub to_event : String → StoredEvent → WebhookEvent
to_event id row = record {
  id = id;
  source_id = row.source_id;
  received_at = row.received_ms * millisecond;
  raw_body = row.raw_body;
  headers = row.headers;
  file_url = "";
  file_store_path = "";
  extracted_data = none;
  extraction_ms = 0;
  api_key_override = [];
  provider_override = "";
  model_override = [];
}

abbrev pub to_stored : String → WebhookEvent → StoredEvent
to_stored event_id event = record {
  source_id = event.source_id;
  received_ms = event.received_at / millisecond;
  event_id = event_id;
  raw_body = event.raw_body;
  headers = event.headers;
}

-- The first row of a source and identifier.
unfoldable pub find_row : String → String → List StoredEvent → Option StoredEvent
find_row source_id event_id [] = none
find_row source_id event_id (r ∷ rows) =
    if str_eq r.source_id source_id && str_eq r.event_id event_id
    then some r
    else find_row source_id event_id rows

module _ (parse_uuid : String → Option String) where
  abbrev pub inserted : WebhookEvent → Option String → List StoredEvent → Option (List StoredEvent)
  inserted event none rows = none
  inserted event (some event_id) rows = some (place (to_stored event_id event) rows)

  -- `InsertEvent`; `none` is its error.
  unfoldable pub insert_event : Bool → WebhookEvent → List StoredEvent → Option (List StoredEvent)
  unfolding place
  insert_event fails event rows = if fails then none else inserted event (parse_uuid event.id) rows

  abbrev pub read_row : String → Option StoredEvent → Option WebhookEvent
  read_row id none = none
  read_row id (some row) = some (to_event id row)

  abbrev pub selected : String → String → Option String → List StoredEvent → Option WebhookEvent
  selected source_id id none rows = none
  selected source_id id (some event_id) rows = read_row id (find_row source_id event_id rows)

  -- `GetEvent`; `none` is its error, also where there is no row.
  unfoldable pub get_event : Bool → String → String → List StoredEvent → Option WebhookEvent
  unfolding find_row
  get_event fails source_id id rows =
      if fails then none else selected source_id id (parse_uuid id) rows

abbrev pub is_since : String → ℕ → StoredEvent → Bool
is_since source_id since row =
    str_eq row.source_id source_id && leb (since / millisecond) row.received_ms

-- The event of a row whose body is read as `body`.
abbrev pub from_row : StoredEvent → List ℕ → WebhookEvent
from_row row body = record (to_event row.event_id row) { raw_body = body }

-- The loop over the rows. All bodies are scanned into one slice: gocql puts a column into the array
-- that the slice has, if its capacity is enough, and into a new one if not, of the capacity that
-- `room` gives for the old one and the length needed. Events that were scanned into one array show
-- its bytes as the last scan leaves them. The result has the array of `array` as it is at the end,
-- and the events. No column is null.
unfoldable pub scan_rows :
    (room : ℕ → ℕ → ℕ) → ℕ → List ℕ → List StoredEvent → List ℕ × List WebhookEvent
scan_rows room capacity array [] = (array, [])
scan_rows room capacity array (row ∷ rows) =
    let n = length row.raw_body in
    let fits = leb n capacity in
    let (final, events) =
      scan_rows room (if fits then capacity else room capacity n)
        (if fits then row.raw_body ++ drop n array else row.raw_body) rows in
    (if fits then final else array, from_row row (take n final) ∷ events)

-- `GetEventsBySourceSince`
unfoldable pub get_events_by_source_since :
    (room : ℕ → ℕ → ℕ) → Bool → String → ℕ → List StoredEvent → Option (List WebhookEvent)
unfolding scan_rows
get_events_by_source_since room fails source_id since rows =
    if fails then none else some (scan_rows room 0 [] (filter (is_since source_id since) rows)).1
