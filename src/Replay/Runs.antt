-- ===== src/Replay/Runs.antt =====
-- What a replay has posted when it ends, and that it ends.
use webhook_mind.Prelude.{
  Bool, In, List, Option, String, [], append-nil, append_assoc, false, length, map, none, refl,
  take, true, ℕ, ◌++◌, ◌+◌, ◌∷◌, ◌≡◌, ◌≤◌, ◌⊎◌,
}
use webhook_mind.Models.{WebhookEvent}
use webhook_mind.Replay.{
  ReplayEnd, ReplayLog, ReplayPost, deliver_replay_event, finished, replay_post, set_progress,
}

-- The posts of some events, in their order; none when the address cannot be used.
abbrev pub posts_of : Bool → String → List WebhookEvent → List ReplayPost
posts_of true url events = map (replay_post url) events
posts_of false url events = []

pub append_none :
    (builds : Bool) (url : String) (posts : List ReplayPost) (events : List WebhookEvent)
    → posts ++ posts_of builds url (take 0 events) ≡ posts
append_none true url posts events = append-nil posts
append_none false url posts events = append-nil posts

-- The posts of one event and of those after it.
pub delivered_posts :
    (builds : Bool) (url : String) (event : WebhookEvent) (events : List WebhookEvent)
    (l : ReplayLog)
    → (deliver_replay_event builds url event l).posts ++ posts_of builds url events
      ≡ l.posts ++ posts_of builds url (event ∷ events)
unfolding deliver_replay_event
delivered_posts true url event events l =
    append_assoc l.posts (replay_post url event ∷ []) (map (replay_post url) events)
delivered_posts false url event events l = refl

module _ (reading : ℕ → Option String) (fuel : ℕ) (builds : Bool) (url : String) where
  -- What a run that starts with `events` has posted and written at its end: the first `k` of them,
  -- and the progress `i + k`; all of them if it finished, unless a reading failed.
  abbrev Posted : List WebhookEvent → ℕ → ℕ → ReplayLog → ReplayEnd × ReplayLog → Type 0
  Posted events i total l (ended, l') =
      (k : ℕ) × (k ≤ length events)
      × (l'.posts ≡ l.posts ++ posts_of builds url (take k events))
      × In (set_progress (i + k) total) l'.issued
      × (ended ≡ finished → (k ≡ length events) ⊎ ((n : ℕ) × (reading n ≡ none)))
