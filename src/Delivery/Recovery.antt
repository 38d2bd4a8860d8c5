-- ===== src/Delivery/Recovery.antt =====
-- internal/delivery/engine.go: `RecoverIncomplete`, on the deliveries that the query of Postgres
-- returns. Which calls of Scylla and Redis fail for each of them is given.
use webhook_mind.Prelude.{
  Bool, List, Option, String, [], ap, append-nil, append_assoc, arith, false, get_or, if◌then◌else◌,
  leb, ltb, none, not, refl, some, suc, sym, true, zero, ℕ, ◌&&◌, ◌++◌, ◌==◌, ◌∙◌, ◌∷◌, ◌≡◌,
}
use webhook_mind.Models.{WebhookEvent}
use webhook_mind.Store.Scylla.{StoredEvent, get_event}
use webhook_mind.Queue.{RedisQueue, delivery, enqueue}
use webhook_mind.Delivery.Destination.{retry_delays}

-- A row of the query, the seconds since its last attempt for the time of it, with the failures of
-- the two calls that are made for it.
pub record Incomplete : Type 0 where
  pub event_id : String
  pub source_id : String
  pub attempt_number : ℕ
  pub elapsed : ℕ
  pub fetch_fails : Bool
  pub enqueue_fails : Bool

-- The delay before the next attempt; none once the table has no entry for it.
unfoldable pub next_delay : ℕ → ℕ
next_delay attempt_number = get_or retry_delays attempt_number 0

module _ (marshal : WebhookEvent → List ℕ) (unmarshal : List ℕ → Option WebhookEvent)
    (parse_uuid : String → Option String) (rows : List StoredEvent) where
  -- What `GetEvent` finds for a row.
  abbrev pub found_for : Incomplete → Option WebhookEvent
  found_for d = get_event parse_uuid d.fetch_fails d.source_id d.event_id rows

  abbrev pub requeued : RedisQueue → Option RedisQueue → RedisQueue
  requeued q none = q
  requeued q (some q') = q'

  abbrev pub fetched : Bool → Option WebhookEvent → RedisQueue → RedisQueue
  fetched fails none q = q
  fetched fails (some event) q = requeued q (enqueue marshal unmarshal fails delivery event q)

  -- One round of the loop.
  unfoldable pub recover_one : Incomplete → RedisQueue → RedisQueue
  unfolding next_delay enqueue get_event
  recover_one d q =
      if ltb d.elapsed (next_delay d.attempt_number)
      then q
      else fetched d.enqueue_fails (found_for d) q

  unfoldable pub recover_all : List Incomplete → RedisQueue → RedisQueue
  unfolding recover_one
  recover_all [] q = q
  recover_all (d ∷ ds) q = recover_all ds (recover_one d q)

  -- `RecoverIncomplete`; `none` is a query that fails.
  unfoldable pub recover_incomplete : Option (List Incomplete) → RedisQueue → RedisQueue
  unfolding recover_all
  recover_incomplete none q = q
  recover_incomplete (some ds) q = recover_all ds q

  -- The entry that a row calls for: that of its event, if it was found, its backoff has passed, and
  -- Redis takes it. The backoff is written out here.
  abbrev pub backoff_passed : Incomplete → Bool
  backoff_passed d =
      if d.attempt_number == 1
      then leb 5 d.elapsed
      else if d.attempt_number == 2
      then leb 30 d.elapsed
      else if d.attempt_number == 3
      then leb 120 d.elapsed
      else true

  abbrev pub entries_of : Bool → Bool → Option WebhookEvent → List (List ℕ)
  entries_of passed fails none = []
  entries_of passed fails (some event) = if passed && not fails then marshal event ∷ [] else []

  abbrev pub due : List Incomplete → List (List ℕ)
  due [] = []
  due (d ∷ ds) = entries_of (backoff_passed d) d.enqueue_fails (found_for d) ++ due ds

  backoff_passed-next_delay :
      (d : Incomplete) → ltb d.elapsed (next_delay d.attempt_number) ≡ not (backoff_passed d)
  unfolding next_delay
  backoff_passed-next_delay d = go d.attempt_number
    where
      go :
          (n : ℕ)
          → ltb d.elapsed (get_or retry_delays n 0)
            ≡ not (
                if n == 1
                then leb 5 d.elapsed
                else if n == 2
                then leb 30 d.elapsed
                else if n == 3
                then leb 120 d.elapsed
                else true)
      go zero = ground arith
      go (suc zero) = ground arith
      go (suc (suc zero)) = ground arith
      go (suc (suc (suc zero))) = ground arith
      go (suc (suc (suc (suc n)))) = ground arith

  nothing_added : (q : RedisQueue) → q ≡ record q { delivery_list = q.delivery_list ++ [] }
  nothing_added q = ap (λ l. record q { delivery_list = l }) (sym (append-nil q.delivery_list))

  -- One row adds its entry at the end of the delivery list.
  recover_one-entries_of :
      (d : Incomplete) (q : RedisQueue)
      → recover_one d q ≡ record q {
        delivery_list =
            q.delivery_list ++ entries_of (backoff_passed d) d.enqueue_fails (found_for d);
      }
  unfolding recover_one enqueue
  recover_one-entries_of d q =
      rw (backoff_passed-next_delay d) (go (backoff_passed d) d.enqueue_fails (found_for d))
    where
      go :
          (passed fails : Bool) (found : Option WebhookEvent)
          → (if not passed then q else fetched fails found q)
            ≡ record q { delivery_list = q.delivery_list ++ entries_of passed fails found }
      go true fails none = nothing_added q
      go true true (some event) = nothing_added q
      go true false (some event) = refl
      go false fails none = nothing_added q
      go false fails (some event) = nothing_added q

  -- At a restart the delivery list gets, in the order of the query, the event of each row that
  -- Scylla has, whose backoff has passed (5 seconds after a first attempt, 30 after a second, 120
  -- after a third, none otherwise) and that Redis takes. Nothing else changes.
  pub recover_incomplete_lem :
      (ds : List Incomplete) (q : RedisQueue)
      → recover_incomplete (some ds) q ≡ record q { delivery_list = q.delivery_list ++ due ds }
  unfolding recover_incomplete recover_all
  recover_incomplete_lem ds q = go ds q
    where
      go :
          (ds : List Incomplete) (q : RedisQueue)
          → recover_all ds q ≡ record q { delivery_list = q.delivery_list ++ due ds }
      go [] q = nothing_added q
      go (d ∷ ds) q =
          ap (λ r. recover_all ds r) (recover_one-entries_of d q)
          ∙ go ds (record q {
            delivery_list =
                q.delivery_list ++ entries_of (backoff_passed d) d.enqueue_fails (found_for d);
          })
          ∙ ap (λ l. record q { delivery_list = l })
              (append_assoc q.delivery_list
                (entries_of (backoff_passed d) d.enqueue_fails (found_for d)) (due ds))
