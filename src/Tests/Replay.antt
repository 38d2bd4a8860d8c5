-- ===== src/Tests/Replay.antt =====
-- Runs of the table of events and of a replay.
use webhook_mind.Prelude.{
  All, In, List, Option, String, [], arith, codes, false, filter, inr, length, map, none, refl,
  some, subst, suc, take, true, zero, ℕ, ◌*◌, ◌+◌, ◌/◌, ◌∷◌, ◌≡◌, ◌≢◌, ◌≤◌,
}
use webhook_mind.Models.{WebhookEvent}
use webhook_mind.Store.Scylla.{
  StoredEvent, from_row, get_event, get_events_by_source_since, insert_event, is_since,
}
use webhook_mind.Store.Scylla.Rows.{
  NewestFirst, Written, as_stored, get_event-insert_event, ms, nothing_yet, written,
}
use webhook_mind.Store.Sessions.{ReplaySession}
use webhook_mind.Store.Scylla.Scans.{get_events_by_source_since_order}
use webhook_mind.Store.Scylla.Bodies.{get_events_by_source_since-last_body, last_body}
use webhook_mind.Api.Replays.{handle_resume_replay, handle_start_replay}
use webhook_mind.Replay.{Session, asleep, finished, set_progress, set_status, start_replay}
use webhook_mind.Replay.Runs.{posts_of}
use webhook_mind.Replay.Ends.{ends_pause, start_replay_completed, start_replay_ends}

-- A new array has the room that is needed.
abbrev exact : ℕ → ℕ → ℕ
exact capacity n = n

-- Every identifier parses, to itself.
abbrev same_text : String → Option String
same_text id = some id

abbrev event_at : String → ℕ → WebhookEvent
event_at id at = record {
  id = id;
  source_id = "shop";
  received_at = at;
  raw_body = codes "{}";
  headers = [];
  file_url = "";
  file_store_path = "";
  extracted_data = none;
  extraction_ms = 0;
  api_key_override = [];
  provider_override = "";
  model_override = [];
}

abbrev row_at : String → ℕ → StoredEvent
row_at id ms = record {
  source_id = "shop";
  received_ms = ms;
  event_id = id;
  raw_body = codes "{}";
  headers = [];
}

abbrev two_rows : List StoredEvent
two_rows = row_at "b" 2 ∷ row_at "a" 1 ∷ []

abbrev newest_first : List WebhookEvent
newest_first = event_at "b" 2000000 ∷ event_at "a" 1000000 ∷ []

two_rows-Written : Written same_text two_rows
unfolding insert_event
two_rows-Written =
    written false (event_at "b" 2000000) (row_at "a" 1 ∷ []) two_rows
      (written false (event_at "a" 1000000) [] (row_at "a" 1 ∷ []) nothing_yet refl) refl

two_events_read : get_events_by_source_since exact false "shop" 0 two_rows ≡ some newest_first
unfolding get_events_by_source_since
two_events_read = refl

get_events_by_source_since_order_example :
    NewestFirst (λ (e : WebhookEvent). e.received_at) newest_first
    × All
        (λ (e : WebhookEvent).
          (row : StoredEvent) × In row two_rows
          × (row.event_id ≡ e.id)
          × (e.source_id ≡ "shop")
          × (0 / 1000000 * 1000000 ≤ e.received_at))
        newest_first
    × ((row : StoredEvent)
        → In row two_rows
        → row.source_id ≡ "shop"
        → 0 / 1000000 ≤ row.received_ms
        → (e : WebhookEvent) × In e newest_first
          × (e.id ≡ row.event_id)
          × (e.received_at ≡ row.received_ms * 1000000)
          × (e.headers ≡ row.headers))
get_events_by_source_since_order_example =
    get_events_by_source_since_order exact same_text two_rows "shop" 0 newest_first two_rows-Written
      two_events_read

-- Two bodies of one length: both events come with the older one.
abbrev with_bodies : List StoredEvent
with_bodies =
    record (row_at "b" 2) { raw_body = codes "[2]" }
    ∷ record (row_at "a" 1) { raw_body = codes "[1]" }
    ∷ []

get_events_by_source_since-last_body_example :
    get_events_by_source_since exact false "shop" 0 with_bodies
    ≡ some (
        map
          (λ row. from_row row (last_body [] (filter (is_since "shop" 0) with_bodies)))
          (filter (is_since "shop" 0) with_bodies))
get_events_by_source_since-last_body_example =
    get_events_by_source_since-last_body exact (λ capacity n. omega arith) "shop" 0 with_bodies 3
      (refl, (refl, tt))

bodies_lost : last_body [] (filter (is_since "shop" 0) with_bodies) ≡ codes "[1]"
bodies_lost = refl

get_event-insert_event_example :
    get_event same_text false "shop" "c" (row_at "c" 3 ∷ two_rows)
    ≡ some (as_stored (event_at "c" 3000001))
unfolding get_event insert_event
get_event-insert_event_example =
    get_event-insert_event same_text (event_at "c" 3000001) two_rows (row_at "c" 3 ∷ two_rows) refl
      refl

abbrev replay_of : Session
replay_of = record { source_id = "shop"; destination_url = "http://new"; from_timestamp = 0 }

-- The readings: running before the first event, paused before the second, and then one that fails.
abbrev readings : ℕ → Option String
readings zero = some "running"
readings (suc zero) = some "paused"
readings (suc (suc n)) = none

start_replay_ends_example :
    (start_replay exact readings 3 (λ url. true) false two_rows (some replay_of)).0 ≢ asleep
start_replay_ends_example =
    start_replay_ends exact readings 3 (λ url. true) false two_rows (some replay_of)
      (elim [
        | zero ↦ (0, omega arith, refl)
        | suc zero ↦ (1, omega arith, refl)
        | suc (suc n) ↦
            (let at : suc (suc n) ≡ suc (suc n) + 0 = omega arith in
              (0, omega arith, subst (λ j. ends_pause (readings j) ≡ true) at refl))
      ])

-- One reading succeeds, the next fails.
abbrev lost : ℕ → Option String
lost zero = some "running"
lost (suc n) = none

start_replay_completed_example :
    let (ended, l) = start_replay exact lost 3 (λ url. true) false two_rows (some replay_of) in
    (ended ≡ finished)
    × (l.posts ≡ posts_of true "http://new" (take 1 newest_first))
    × In (set_status "completed") l.issued
start_replay_completed_example =
    start_replay_completed exact lost 3 (λ url. true) two_rows replay_of newest_first 1
      two_events_read (elim [ zero ↦ λ h. refl | suc j ↦ λ h. absurd (omega arith) ])
      (inr (omega arith, refl))

lost_test :
    (start_replay exact lost 3 (λ url. true) false two_rows (some replay_of)).1.issued
    ≡ set_progress 0 2 ∷ set_progress 1 2 ∷ set_status "completed" ∷ []
unfolding start_replay get_events_by_source_since
lost_test = refl

abbrev session_row : ReplaySession
session_row = record {
  id = "s1";
  source_id = "shop";
  destination_url = "http://new";
  from_timestamp = 0;
  status = "running";
  events_replayed = 0;
  events_total = none;
  is_completed = false;
  initiated_by = "";
}

-- A session that has ended is running again after a resume, though nothing runs.
resumed_after_the_end :
    map
      (λ (r : ReplaySession). r.status)
      (handle_resume_replay false "s1" (record session_row { status = "completed" } ∷ [])).1
    ≡ "running" ∷ []
unfolding handle_resume_replay
resumed_after_the_end = refl

started_twice :
    let (answer, rows) =
      handle_start_replay
        (λ text. some 5)
        true
        false
        "s2"
        "shop"
        (some
          (record { destination_url = "http://new"; from_timestamp = "t"; initiated_by = "me" }))
        (session_row ∷ []) in
    (answer.started ≡ some "s2") × (length rows ≡ 2)
unfolding handle_start_replay
started_twice = (refl, refl)
