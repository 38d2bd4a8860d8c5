-- ===== src/Store/Sessions.antt =====
-- internal/store/postgres.go: the table `replay_sessions` and its statements. The identifier of a new
-- row is given; `none` is an error. `to_timestamp`, which no code sets, is left out.
use webhook_mind.Prelude.{
  Bool, List, Option, String, [], false, if◌then◌else◌, map, none, some, str_eq, true, ℕ, ◌++◌,
  ◌||◌, ◌∷◌,
}

-- `ReplaySession`. The time of completion is a flag here, that of the start is left out.
pub record ReplaySession : Type 0 where
  pub id : String
  pub source_id : String
  pub destination_url : String
  pub from_timestamp : ℕ
  pub status : String
  pub events_replayed : ℕ
  pub events_total : Option ℕ
  pub is_completed : Bool
  pub initiated_by : String

-- `CreateReplaySession`: the columns that the statement leaves out have their defaults.
unfoldable pub create_replay_session :
    Bool → String → ReplaySession → List ReplaySession → Option (String × List ReplaySession)
create_replay_session fails id session rows =
    if fails
    then none
    else some (
      id,
      rows
          ++ record session {
            id = id;
            events_replayed = 0;
            events_total = none;
            is_completed = false;
          }
            ∷ [],
    )

unfoldable pub find_session : String → List ReplaySession → Option ReplaySession
find_session session_id [] = none
find_session session_id (row ∷ rows) =
    if str_eq row.id session_id then some row else find_session session_id rows

-- `GetReplaySession`; `none` also where there is no row.
unfoldable pub get_replay_session : Bool → String → List ReplaySession → Option ReplaySession
unfolding find_session
get_replay_session fails session_id rows = if fails then none else find_session session_id rows

-- The change of a row by `UpdateReplaySessionStatus`.
abbrev pub with_status : String → ReplaySession → ReplaySession
with_status new row = record row {
  status = new;
  is_completed = if str_eq new "completed" || str_eq new "failed" then true else row.is_completed;
}

abbrev pub with_progress : ℕ → ℕ → ReplaySession → ReplaySession
with_progress replayed total row = record row {
  events_replayed = replayed;
  events_total = some total;
}

abbrev pub at_session :
    String → (ReplaySession → ReplaySession) → List ReplaySession → List ReplaySession
at_session session_id change rows =
    map (λ (row : ReplaySession). if str_eq row.id session_id then change row else row) rows

-- `UpdateReplaySessionStatus`
unfoldable pub update_replay_session_status :
    Bool → String → String → List ReplaySession → Option (List ReplaySession)
update_replay_session_status fails session_id new rows =
    if fails then none else some (at_session session_id (with_status new) rows)

-- `UpdateReplaySessionProgress`
unfoldable pub update_replay_session_progress :
    Bool → String → ℕ → ℕ → List ReplaySession → Option (List ReplaySession)
update_replay_session_progress fails session_id replayed total rows =
    if fails then none else some (at_session session_id (with_progress replayed total) rows)
