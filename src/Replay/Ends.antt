-- ===== src/Replay/Ends.antt =====
-- That a replay ends, and what it says of itself when its row cannot be read.
use webhook_mind.Prelude.{
  Bool, Bool-cases, In, In-last, List, Option, Option-cases, String, [], arith, false, inl, inr,
  length, none, refl, some, str_eq, subst, suc, sym, take, true, zero, ℕ, ◌++◌, ◌+◌, ◌<◌, ◌||◌, ◌∙◌,
  ◌∷◌, ◌≡◌, ◌≢◌, ◌≤◌, ◌⊎◌,
}
use webhook_mind.Models.{WebhookEvent}
use webhook_mind.Store.Scylla.{StoredEvent, get_events_by_source_since}
use webhook_mind.Replay.{
  Pause, ReplayEnd, ReplayLog, Session, after_pause, asleep, delivered_one, finished, left_off,
  pause_step, replay_events, resumed, round, set_progress, set_status, start_replay, still_paused,
  wait_resumed,
}
use webhook_mind.Replay.Runs.{append_none, delivered_posts, posts_of}

-- A reading that ends a pause.
abbrev pub ends_pause : Option String → Bool
ends_pause none = true
ends_pause (some s) = str_eq s "cancelled" || str_eq s "running"

module _ (reading : ℕ → Option String) (fuel : ℕ) (builds : Bool) (url : String) where
  pause_step_lem :
      (next : ℕ → Pause) (n : ℕ) (found : Option String)
      → (ends_pause found ≡ false → next (n + 1) ≢ still_paused)
      → pause_step reading fuel builds url next n found ≢ still_paused
  pause_step_lem next n none h e = cc
  pause_step_lem next n (some s) h e = elim (Bool-cases (str_eq s "cancelled")) [
    | inl stop ↦ absurd (ground arith)
    | inr on ↦ elim (Bool-cases (str_eq s "running")) [
      | inl run ↦ absurd (ground arith)
      | inr off ↦ h (ground arith) (ground arith)
    ]
  ]

  wait_resumed_ends :
      (left n m : ℕ)
      → m < left
      → ends_pause (reading (n + m)) ≡ true
      → wait_resumed reading fuel builds url left n ≢ still_paused
  unfolding wait_resumed
  wait_resumed_ends zero n m lt h = absurd (omega arith)
  wait_resumed_ends (suc left) n zero lt h =
      let at : n + 0 ≡ n = omega arith in
      pause_step_lem (wait_resumed reading fuel builds url left) n (reading n)
        (λ off. absurd (ground arith))
  wait_resumed_ends (suc left) n (suc m) lt h =
      pause_step_lem (wait_resumed reading fuel builds url left) n (reading n) (λ off.
        wait_resumed_ends left (n + 1) m (omega arith)
          (subst (λ j. ends_pause (reading j) ≡ true) (omega arith) h))

  after_pause_ends :
      (next : ℕ → ReplayLog → ReplayEnd × ReplayLog) (event : WebhookEvent) (i total : ℕ)
      (l : ReplayLog) (pause : Pause)
      → ((n : ℕ) (l₁ : ReplayLog) → (next n l₁).0 ≢ asleep)
      → pause ≢ still_paused
      → (after_pause reading fuel builds url next event i total l pause).0 ≢ asleep
  after_pause_ends next event i total l (resumed n) step h =
      step n (delivered_one reading fuel builds url event i total l)
  after_pause_ends next event i total l left_off step h = λ e. cc
  after_pause_ends next event i total l still_paused step h = absurd (h refl)

  round_ends :
      (next : ℕ → ReplayLog → ReplayEnd × ReplayLog) (event : WebhookEvent) (i total n : ℕ)
      (l : ReplayLog) (found : Option String)
      → ((n : ℕ) (l₁ : ReplayLog) → (next n l₁).0 ≢ asleep)
      → ((n : ℕ) → wait_resumed reading fuel builds url fuel n ≢ still_paused)
      → (round reading fuel builds url next event i total n l found).0 ≢ asleep
  round_ends next event i total n l none step wakes = λ e. cc
  round_ends next event i total n l (some s) step wakes = elim (Bool-cases (str_eq s "paused")) [
    | inl paused ↦ rw paused (
        after_pause_ends next event i total l (wait_resumed reading fuel builds url fuel (n + 1))
          step (wakes (n + 1)))
    | inr going ↦ elim (Bool-cases (str_eq s "cancelled")) [
      | inl stop ↦ rw (going, stop) (λ e. cc)
      | inr run ↦
          rw (going, run) (step (n + 1) (delivered_one reading fuel builds url event i total l))
    ]
  ]

  replay_events_ends :
      (events : List WebhookEvent) (i total n : ℕ) (l : ReplayLog)
      → ((n : ℕ) → wait_resumed reading fuel builds url fuel n ≢ still_paused)
      → (replay_events reading fuel builds url events i total n l).0 ≢ asleep
  unfolding replay_events
  replay_events_ends [] i total n l wakes = λ e. cc
  replay_events_ends (event ∷ events) i total n l wakes =
      round_ends (replay_events reading fuel builds url events (i + 1) total) event i total n l
        (reading n) (λ m l₁. replay_events_ends events (i + 1) total m l₁ wakes) wakes

  -- Rounds that find the session running, up to one whose reading fails or to the last event.
  replay_events_broken :
      (k : ℕ) (events : List WebhookEvent) (i total n : ℕ) (l : ReplayLog)
      → ((j : ℕ) → j < k → reading (n + j) ≡ some "running")
      → (k ≡ length events) ⊎ ((k ≤ length events) × (reading (n + k) ≡ none))
      → let (ended, l') = replay_events reading fuel builds url events i total n l in
        (ended ≡ finished)
        × (l'.posts ≡ l.posts ++ posts_of builds url (take k events))
        × In (set_status "completed") l'.issued
  unfolding replay_events
  replay_events_broken zero [] i total n l running h =
      (refl, sym (append_none builds url l.posts []), In-last _ l.issued)
  replay_events_broken (suc k) [] i total n l running h = elim h [
    | inl all_read ↦ absurd (omega arith)
    | inr (few, broken) ↦ absurd (omega arith)
  ]
  replay_events_broken zero (event ∷ events) i total n l running h = elim h [
    | inl all_read ↦ absurd (omega arith)
    | inr (few, broken) ↦
        let at : n + 0 ≡ n = omega arith in
        let broken' : reading n ≡ none = subst (λ j. reading j ≡ none) at broken in
        rw broken' (refl, sym (append_none builds url l.posts (event ∷ events)), In-last _ l.issued)
  ]
  replay_events_broken (suc k) (event ∷ events) i total n l running h =
      let first : reading n ≡ some "running" =
        subst (λ j. reading j ≡ some "running") (omega arith) (running 0 (omega arith)) in
      let l₁ = delivered_one reading fuel builds url event i total l in
      let (ended, posts, seen) =
        replay_events_broken k events (i + 1) total (n + 1) l₁
          (λ j lt.
            subst (λ m. reading m ≡ some "running") (omega arith) (running (j + 1) (omega arith)))
          (elim h [
            | inl all_read ↦ inl (omega arith)
            | inr (few, broken) ↦
                inr (omega arith, subst (λ m. reading m ≡ none) (omega arith) broken)
          ]) in
      rw first (ended, posts ∙ delivered_posts builds url event (take k events) l, seen)

-- If from any reading on, one of the next `fuel` readings of the session's row fails or finds it
-- running or cancelled, then the replay ends, however often it is paused.
pub start_replay_ends :
    (room : ℕ → ℕ → ℕ) (reading : ℕ → Option String) (fuel : ℕ) (builds : String → Bool)
    (scylla_fails : Bool) (rows : List StoredEvent) (session : Option Session)
    → ((n : ℕ) → (m : ℕ) × (m < fuel) × (ends_pause (reading (n + m)) ≡ true))
    → (start_replay room reading fuel builds scylla_fails rows session).0 ≢ asleep
unfolding start_replay
start_replay_ends room reading fuel builds scylla_fails rows none wakes = λ e. cc
start_replay_ends room reading fuel builds scylla_fails rows (some session) wakes =
    elim (Option-cases (
      get_events_by_source_since room scylla_fails session.source_id session.from_timestamp rows)) [
        | inl bad ↦ rw bad (λ e. cc)
        | inr (events, found) ↦ rw found (
            let url = session.destination_url in
            replay_events_ends reading fuel (builds url) url events 0 (length events) 0
              (record { posts = []; issued = set_progress 0 (length events) ∷ [] })
              (λ n.
                let (m, lt, h) = wakes n in
                wait_resumed_ends reading fuel (builds url) url fuel n m lt h))
      ]

-- If the readings before the first `k` events all find the session running, and `k` is the number
-- of the events or the reading before the next one fails, then the requests handed to the HTTP
-- client are exactly those of these `k` events, as they were read (none if the address cannot be
-- used); in both cases the replay comes to its end, and issues the UPDATE to `completed`.
pub start_replay_completed :
    (room : ℕ → ℕ → ℕ) (reading : ℕ → Option String) (fuel : ℕ) (builds : String → Bool)
    (rows : List StoredEvent) (session : Session) (events : List WebhookEvent) (k : ℕ)
    → get_events_by_source_since room false session.source_id session.from_timestamp rows
      ≡ some events
    → ((j : ℕ) → j < k → reading j ≡ some "running")
    → (k ≡ length events) ⊎ ((k ≤ length events) × (reading k ≡ none))
    → let (ended, l) = start_replay room reading fuel builds false rows (some session) in
      (ended ≡ finished)
      × (l.posts
          ≡ posts_of (builds session.destination_url) session.destination_url (take k events))
      × In (set_status "completed") l.issued
unfolding start_replay
start_replay_completed room reading fuel builds rows session events k found running h =
    let url = session.destination_url in
    rw found (
      replay_events_broken reading fuel (builds url) url k events 0 (length events) 0
        (record { posts = []; issued = set_progress 0 (length events) ∷ [] })
        (λ j lt. subst (λ m. reading m ≡ some "running") (omega arith) (running j lt))
        (elim h [
          | inl all_read ↦ inl all_read
          | inr (few, broken) ↦ inr (few, subst (λ m. reading m ≡ none) (omega arith) broken)
        ]))
