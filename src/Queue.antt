-- ===== src/Queue.antt =====
-- internal/queue/redis.go: the four Redis lists, and the operations on them. `json.Marshal` and
-- `json.Unmarshal` of an event are parameters. A `Bool` argument says whether Redis fails.
pub mod Laws
use webhook_mind.Prelude.{
  Bool, List, Option, String, [], bytes_equal, if◌then◌else◌, length, none, some, str_eq, ℕ, ◌++◌,
  ◌∷◌,
}
use webhook_mind.Models.{WebhookEvent}

pub data QueueName : Type 0 where
  incoming delivery extraction dlq : QueueName

pub record RedisQueue : Type 0 where
  pub incoming_list : List (List ℕ)
  pub delivery_list : List (List ℕ)
  pub extraction_list : List (List ℕ)
  pub dlq_list : List (List ℕ)

abbrev pub list_of : QueueName → RedisQueue → List (List ℕ)
list_of incoming q = q.incoming_list
list_of delivery q = q.delivery_list
list_of extraction q = q.extraction_list
list_of dlq q = q.dlq_list

abbrev pub set_list : QueueName → List (List ℕ) → RedisQueue → RedisQueue
set_list incoming l q = record q { incoming_list = l }
set_list delivery l q = record q { delivery_list = l }
set_list extraction l q = record q { extraction_list = l }
set_list dlq l q = record q { dlq_list = l }

-- `LREM key 1 value`: the first equal entry goes.
unfoldable pub remove_first : List ℕ → List (List ℕ) → List (List ℕ)
unfolding bytes_equal
remove_first raw [] = []
remove_first raw (r ∷ rs) = if bytes_equal r raw then rs else r ∷ remove_first raw rs

-- `RemoveDLQEntry`
unfoldable pub remove_dlq_entry : Bool → List ℕ → RedisQueue → RedisQueue
unfolding remove_first
remove_dlq_entry fails raw q =
    if fails then q else record q { dlq_list = remove_first raw q.dlq_list }

-- `QueueLen`
unfoldable pub queue_len : Bool → QueueName → RedisQueue → Option ℕ
queue_len fails key q = if fails then none else some (length (list_of key q))

-- What `Dequeue` returns: an error, nothing, or an event.
pub data Dequeued : Type 0 where
  failed : Dequeued
  nothing : Dequeued
  got : WebhookEvent → Dequeued

module _ (marshal : WebhookEvent → List ℕ) (unmarshal : List ℕ → Option WebhookEvent) where
  -- `Enqueue`; `none` is its error.
  unfoldable pub enqueue : Bool → QueueName → WebhookEvent → RedisQueue → Option RedisQueue
  enqueue fails key event q =
      if fails then none else some (set_list key (list_of key q ++ marshal event ∷ []) q)

  abbrev decoded : Option WebhookEvent → Dequeued
  decoded none = failed
  decoded (some event) = got event

  abbrev popped : QueueName → List (List ℕ) → RedisQueue → Dequeued × RedisQueue
  popped key [] q = (nothing, q)
  popped key (raw ∷ rest) q = (decoded (unmarshal raw), set_list key rest q)

  -- `Dequeue` on a context that is not cancelled: an empty list at the end of the timeout gives
  -- nothing, and an entry that cannot be decoded is gone.
  unfoldable pub dequeue : Bool → QueueName → RedisQueue → Dequeued × RedisQueue
  dequeue fails key q = if fails then (failed, q) else popped key (list_of key q) q

  -- The loop of `FindDLQEntry`.
  unfoldable pub find_entry : String → List (List ℕ) → Option (List ℕ × WebhookEvent)
  find_entry event_id [] = none
  find_entry event_id (raw ∷ rest) =
      let later = find_entry event_id rest in
      elim (unmarshal raw) [
        | none ↦ later
        | some event ↦ if str_eq event.id event_id then some (raw, event) else later
      ]

  -- `FindDLQEntry`: an error, or what it found.
  unfoldable pub find_dlq_entry :
      Bool → String → RedisQueue → Option (Option (List ℕ × WebhookEvent))
  unfolding find_entry
  find_dlq_entry fails event_id q = if fails then none else some (find_entry event_id q.dlq_list)
