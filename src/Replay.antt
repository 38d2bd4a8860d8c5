-- ===== src/Replay.antt =====
-- internal/replay/engine.go: `StartReplay`. Other requests pause, resume and cancel a session while
-- it runs, so what each reading of its row finds is given: `reading n` is the status that the
-- n-th finds, `none` an error.
pub mod Runs
pub mod Ends
use webhook_mind.Prelude.{
  Bool, List, Option, String, [], codes, false, if◌then◌else◌, insert, length, none, some, str_eq,
  suc, true, zero, ℕ, ◌++◌, ◌+◌, ◌∷◌,
}
use webhook_mind.Models.{WebhookEvent}
use webhook_mind.Store.Scylla.{StoredEvent, get_events_by_source_since}

-- `ReplaySession`, in what the engine reads.
pub record Session : Type 0 where
  pub source_id : String
  pub destination_url : String
  pub from_timestamp : ℕ

-- The UPDATEs of the session's row that the engine issues, in order. Each may fail; the engine looks
-- at no error of them, so what it does next does not depend on it.
pub data SessionWrite : Type 0 where
  set_status : String → SessionWrite
  set_progress : ℕ → ℕ → SessionWrite

-- A request that is handed to `http.Client.Do`.
pub record ReplayPost : Type 0 where
  pub url : String
  pub body : List ℕ
  pub headers : List (String × List ℕ)

pub record ReplayLog : Type 0 where
  pub posts : List ReplayPost
  pub issued : List SessionWrite

-- How a replay ends: the session or its events could not be read; it was cancelled, before an event
-- or while it was paused; or it came to its end. `asleep` is a pause whose fuel ran out.
pub data ReplayEnd : Type 0 where
  no_session no_events cancelled gone finished asleep : ReplayEnd

-- The POST of an event, with the two headers that mark it. Keys are canonical, as `Set` makes them.
unfoldable pub replay_post : String → WebhookEvent → ReplayPost
unfolding insert
replay_post url event = record {
  url = url;
  body = event.raw_body;
  headers =
      insert "X-Original-Event-Id" (codes event.id)
        (insert "X-Replay" (codes "true") event.headers);
}

-- `deliverReplayEvent`, less its answer: an error is only logged, and the next event follows.
-- `builds` says whether `http.NewRequest` takes the address.
unfoldable pub deliver_replay_event : Bool → String → WebhookEvent → ReplayLog → ReplayLog
unfolding replay_post
deliver_replay_event true url event l = record l { posts = l.posts ++ replay_post url event ∷ [] }
deliver_replay_event false url event l = l

abbrev pub write : SessionWrite → ReplayLog → ReplayLog
write w l = record l { issued = l.issued ++ w ∷ [] }

-- What a pause comes to, with the number of the next reading.
pub data Pause : Type 0 where
  resumed : ℕ → Pause
  left_off : Pause
  still_paused : Pause

module _ (reading : ℕ → Option String) (pause_fuel : ℕ) (builds : Bool) (url : String) where
  abbrev pub pause_step : (ℕ → Pause) → ℕ → Option String → Pause
  pause_step next n none = left_off
  pause_step next n (some s) =
      if str_eq s "cancelled"
      then left_off
      else if str_eq s "running"
      then resumed (n + 1)
      else next (n + 1)

  -- The loop that waits while the session is paused, a reading every two seconds.
  unfoldable pub wait_resumed : ℕ → ℕ → Pause
  wait_resumed zero n = still_paused
  wait_resumed (suc fuel) n = pause_step (wait_resumed fuel) n (reading n)

  -- The delivery of the i-th of `total` events, and the progress.
  abbrev pub delivered_one : WebhookEvent → ℕ → ℕ → ReplayLog → ReplayLog
  delivered_one event i total l =
      write (set_progress (i + 1) total) (deliver_replay_event builds url event l)

  abbrev pub after_pause :
      (ℕ → ReplayLog → ReplayEnd × ReplayLog)
      → WebhookEvent
      → ℕ
      → ℕ
      → ReplayLog
      → Pause
      → ReplayEnd × ReplayLog
  after_pause next event i total l (resumed n) = next n (delivered_one event i total l)
  after_pause next event i total l left_off = (gone, write (set_status "cancelled") l)
  after_pause next event i total l still_paused = (asleep, l)

  abbrev pub finish : ReplayLog → ReplayEnd × ReplayLog
  finish l = (finished, write (set_status "completed") l)

  -- One round, by the status that the reading before it finds.
  abbrev pub round :
      (ℕ → ReplayLog → ReplayEnd × ReplayLog)
      → WebhookEvent
      → ℕ
      → ℕ
      → ℕ
      → ReplayLog
      → Option String
      → ReplayEnd × ReplayLog
  round next event i total n l none = finish l
  round next event i total n l (some s) =
      if str_eq s "paused"
      then after_pause next event i total l (wait_resumed pause_fuel (n + 1))
      else if str_eq s "cancelled"
      then (cancelled, l)
      else next (n + 1) (delivered_one event i total l)

  -- The loop over the events; `n` is the number of the next reading.
  unfoldable pub replay_events : List WebhookEvent → ℕ → ℕ → ℕ → ReplayLog → ReplayEnd × ReplayLog
  unfolding wait_resumed deliver_replay_event
  replay_events [] i total n l = finish l
  replay_events (event ∷ events) i total n l =
      round (replay_events events (i + 1) total) event i total n l (reading n)

abbrev pub replay_found :
    (ℕ → Option String)
    → ℕ
    → (String → Bool)
    → String
    → Option (List WebhookEvent)
    → ReplayEnd × ReplayLog
replay_found reading fuel builds url none =
    (no_events, record { posts = []; issued = set_status "failed" ∷ [] })
replay_found reading fuel builds url (some events) =
    replay_events reading fuel (builds url) url events 0 (length events) 0
      (record { posts = []; issued = set_progress 0 (length events) ∷ [] })

abbrev pub replay_session :
    (ℕ → Option String)
    → ℕ
    → (String → Bool)
    → (String → ℕ → Option (List WebhookEvent))
    → Option Session
    → ReplayEnd × ReplayLog
replay_session reading fuel builds events_since none =
    (no_session, record { posts = []; issued = [] })
replay_session reading fuel builds events_since (some s) =
    replay_found reading fuel builds s.destination_url (events_since s.source_id s.from_timestamp)

-- `StartReplay`, on the rows of Scylla; `room` is the driver's, as in `scan_rows`.
unfoldable pub start_replay :
    (room : ℕ → ℕ → ℕ)
    → (ℕ → Option String)
    → ℕ
    → (String → Bool)
    → Bool
    → List StoredEvent
    → Option Session
    → ReplayEnd × ReplayLog
unfolding replay_events
start_replay room reading fuel builds scylla_fails rows session =
    replay_session reading fuel builds
      (λ source_id since. get_events_by_source_since room scylla_fails source_id since rows) session
