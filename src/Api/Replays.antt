-- ===== src/Api/Replays.antt =====
-- internal/api/handlers.go: the handlers that start, pause, resume and cancel a replay. A request
-- comes decoded, or not at all; `time.Parse` is a parameter.
use webhook_mind.Prelude.{Bool, List, Option, String, false, if◌then◌else◌, none, some, ℕ}
use webhook_mind.Store.Sessions.{ReplaySession, create_replay_session, update_replay_session_status}

pub record ReplayInput : Type 0 where
  pub destination_url : String
  pub from_timestamp : String
  pub initiated_by : String

-- The answer: its status; and the session whose replay starts in the background, if one does.
pub record ReplayAnswer : Type 0 where
  pub code : ℕ
  pub started : Option String

abbrev refused : ℕ → ReplayAnswer
refused code = record { code = code; started = none }

module _ (parse_time : String → Option ℕ) (has_engine : Bool) where
  abbrev session_created :
      List ReplaySession → Option (String × List ReplaySession) → ReplayAnswer × List ReplaySession
  session_created rows none = (refused 500, rows)
  session_created rows (some (id, rows')) =
      (record { code = 201; started = if has_engine then some id else none }, rows')

  abbrev from_time :
      Bool
      → String
      → String
      → ReplayInput
      → Option ℕ
      → List ReplaySession
      → ReplayAnswer × List ReplaySession
  from_time fails id source_id input none rows = (refused 400, rows)
  from_time fails id source_id input (some time) rows = session_created rows (
      create_replay_session fails id
        (record {
          id = "";
          source_id = source_id;
          destination_url = input.destination_url;
          from_timestamp = time;
          status = "running";
          events_replayed = 0;
          events_total = none;
          is_completed = false;
          initiated_by = input.initiated_by;
        })
        rows)

  -- `handleStartReplay`
  unfoldable pub handle_start_replay :
      Bool
      → String
      → String
      → Option ReplayInput
      → List ReplaySession
      → ReplayAnswer × List ReplaySession
  unfolding create_replay_session
  handle_start_replay fails id source_id none rows = (refused 400, rows)
  handle_start_replay fails id source_id (some input) rows =
      from_time fails id source_id input (parse_time input.from_timestamp) rows

abbrev set_to : List ReplaySession → Option (List ReplaySession) → ℕ × List ReplaySession
set_to rows none = (500, rows)
set_to rows (some rows') = (200, rows')

-- `handlePauseReplay`, `handleResumeReplay` and `handleCancelReplay`: none of them looks at the
-- status that the session has.
unfoldable pub handle_pause_replay : Bool → String → List ReplaySession → ℕ × List ReplaySession
unfolding update_replay_session_status
handle_pause_replay fails session_id rows =
    set_to rows (update_replay_session_status fails session_id "paused" rows)

unfoldable pub handle_resume_replay : Bool → String → List ReplaySession → ℕ × List ReplaySession
unfolding update_replay_session_status
handle_resume_replay fails session_id rows =
    set_to rows (update_replay_session_status fails session_id "running" rows)

unfoldable pub handle_cancel_replay : Bool → String → List ReplaySession → ℕ × List ReplaySession
unfolding update_replay_session_status
handle_cancel_replay fails session_id rows =
    set_to rows (update_replay_session_status fails session_id "cancelled" rows)
