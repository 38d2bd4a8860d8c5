-- ===== src/Orchestrator.antt =====
-- cmd/orchestrator/main.go: a worker's step on the incoming list, and the scaler. JSON of events
-- and payloads is a parameter; the flags say which calls of Redis fail.
pub mod Steps
use webhook_mind.Prelude.{
  Bool, List, Option, String, [], false, if◌then◌else◌, lookup, ltb, negsuc, none, pos, some,
  str_eq, sub_ℕ, true, ℕ, ℤ, ◌%◌, ◌&&◌, ◌+◌, ◌-◌, ◌∷◌,
}
use webhook_mind.Json.{Fields, Json, members, str}
use webhook_mind.Models.{WebhookEvent}
use webhook_mind.Queue.{
  Dequeued, QueueName, RedisQueue, delivery, dequeue, enqueue, extraction, failed, got, incoming,
  nothing,
}

-- `payload["file_url"].(string)`, where it is not empty.
abbrev pub url_in : Option Json → Option String
url_in (some (str url)) = if str_eq url "" then none else some url
url_in _ = none

abbrev pub payload_url : Option Fields → Option String
payload_url none = none
payload_url (some payload) = url_in (lookup "file_url" (members payload))

module _ (marshal : WebhookEvent → List ℕ) (unmarshal : List ℕ → Option WebhookEvent)
    (parse_body : List ℕ → Option Fields) where
  abbrev pub routed : WebhookEvent → Option String → QueueName × WebhookEvent
  routed event none = (delivery, event)
  routed event (some url) = (extraction, record event { file_url = url })

  -- The list that an event goes to, and the event as it goes there.
  unfoldable pub route_event : WebhookEvent → QueueName × WebhookEvent
  unfolding lookup
  route_event event = routed event (payload_url (parse_body event.raw_body))

  -- What `Enqueue` leaves; an error is only logged.
  abbrev pub or_lost : RedisQueue → Option RedisQueue → RedisQueue
  or_lost q none = q
  or_lost q (some q') = q'

  abbrev pub forward : Bool → Dequeued × RedisQueue → RedisQueue
  forward fails (failed, q) = q
  forward fails (nothing, q) = q
  forward fails (got event, q) =
      let (target, event') = route_event event in
      or_lost q (enqueue marshal unmarshal fails target event' q)

  -- One round of a worker.
  unfoldable pub work : (dequeue_fails enqueue_fails : Bool) → RedisQueue → RedisQueue
  unfolding dequeue enqueue route_event
  work dequeue_fails enqueue_fails q =
      forward enqueue_fails (dequeue marshal unmarshal dequeue_fails incoming q)

-- `int32(n)`: the low 32 bits, with the sign that they have there.
unfoldable pub int32 : ℤ → ℤ
int32 (pos n) =
    let m = n % 4294967296 in if ltb m 2147483648 then pos m else negsuc (4294967295 - m)
int32 (negsuc n) =
    let m = n % 4294967296 in if ltb m 2147483648 then negsuc m else pos (4294967295 - m)

abbrev pub less : ℤ → ℤ → Bool
less (pos m) (pos n) = ltb m n
less (pos m) (negsuc n) = false
less (negsuc m) (pos n) = true
less (negsuc m) (negsuc n) = ltb n m

-- a + n and a - b, before they wrap.
abbrev pub plus : ℤ → ℕ → ℤ
plus (pos m) n = pos (m + n)
plus (negsuc m) n = sub_ℕ n (m + 1)

abbrev pub minus : ℤ → ℤ → ℤ
minus (pos m) (pos n) = sub_ℕ m n
minus (pos m) (negsuc n) = pos (m + n + 1)
minus (negsuc m) (pos n) = negsuc (m + n)
minus (negsuc m) (negsuc n) = sub_ℕ n m

-- The rounds of a loop that counts from 0 up to a limit.
abbrev pub rounds : ℤ → ℕ
rounds (pos n) = n
rounds (negsuc n) = 0

-- The workers that the scaler starts at one tick, all numbers but the depth and the threshold as
-- int32. `none` is an error of `QueueLen`.
unfoldable pub workers_to_add : (threshold max_workers current : ℤ) → Option ℕ → ℕ
unfolding int32
workers_to_add threshold max_workers current none = 0
workers_to_add threshold max_workers current (some depth) =
    if less threshold (pos depth) && less current max_workers
    then rounds (
        if less max_workers (int32 (plus current 10))
        then int32 (minus max_workers current)
        else pos 10)
    else 0

-- The workers after some ticks, by the depths that they read; `max_workers` is the converted one.
unfoldable pub scale_from : (threshold max_workers : ℤ) → List (Option ℕ) → ℤ → ℤ
unfolding workers_to_add int32
scale_from threshold max_workers [] current = current
scale_from threshold max_workers (d ∷ depths) current =
    scale_from threshold max_workers depths
      (int32 (plus current (workers_to_add threshold max_workers current d)))

-- The scaler, with the settings as they are read.
unfoldable pub scale : (threshold max_workers : ℤ) → List (Option ℕ) → ℤ → ℤ
unfolding scale_from int32
scale threshold max_workers depths current = scale_from threshold (int32 max_workers) depths current
