-- ===== src/Delivery/Destination/Burial.antt =====
-- What a delivery leaves in the dead letter queue.
use webhook_mind.Prelude.{
  Bool, List, Option, String, [], arith, false, if◌then◌else◌, inl, inr, refl, suc, sym, true, zero,
  ℕ, ◌++◌, ◌+◌, ◌∷◌, ◌≡◌,
}
use webhook_mind.Models.{DeadLetterEntry, WebhookEvent}
use webhook_mind.Routing.{Destination}
use webhook_mind.Queue.{enqueue}
use webhook_mind.Delivery.Destination.{
  Decision, Ledger, Outcome, Run, Waited, after_attempt, after_wait, decide, deliver_from,
  deliver_to_destination, delivered, done, exhaust, exhausted, interrupted, make_attempt,
  move_to_dlq, out_of_range, refuse, refused, retry, succeed, wait_for, waited,
}
use webhook_mind.Delivery.Destination.Verdict.{decide-done, deliver_from-suc}

-- The outcomes that put the event into the dead letter queue.
abbrev pub is_dead : Outcome → Bool
is_dead refused = true
is_dead exhausted = true
is_dead _ = false

module _ (marshal : WebhookEvent → List ℕ) (unmarshal : List ℕ → Option WebhookEvent) (run : Run)
    (event : WebhookEvent) (dest : Destination) where
  abbrev pub entry_for : String → DeadLetterEntry
  entry_for reason = record {
    event_id = event.id;
    source_id = event.source_id;
    destination_id = dest.id;
    raw_body = event.raw_body;
    headers = event.headers;
    failure_reason = reason;
    resolved = false;
  }

  -- What a delivery leaves in both dead letter queues.
  abbrev pub Buried : Ledger → Outcome × Ledger → Type 0
  Buried l (o, l') =
      if is_dead o
      then ((reason : String) × (l'.dead_letters ≡ l.dead_letters ++ entry_for reason ∷ [])
          × (l'.queue ≡ record (l.queue) { dlq_list = l.queue.dlq_list ++ marshal event ∷ [] }))
      else ((l'.dead_letters ≡ l.dead_letters) × (l'.queue ≡ l.queue))

  wait_for_keeps :
      (attempt : ℕ) (l l' : Ledger)
      → wait_for run attempt l ≡ waited l'
      → (l'.dead_letters ≡ l.dead_letters) × (l'.queue ≡ l.queue)
  unfolding wait_for
  wait_for_keeps attempt l l' h = ground arith

  move_to_dlq-Buried :
      (reason : String) (o : Outcome) (l l₀ : Ledger)
      → run.redis_fails ≡ false
      → run.dead_letter_fails ≡ false
      → is_dead o ≡ true
      → (l₀.dead_letters ≡ l.dead_letters) × (l₀.queue ≡ l.queue)
      → Buried l (o, move_to_dlq marshal unmarshal run event dest reason l₀)
  unfolding move_to_dlq
  move_to_dlq-Buried reason o l l₀ up written dead same =
      rw dead (reason, ground arith, unfold enqueue in ground arith)

  -- The fields that `Buried` speaks of.
  abbrev Keeps : Ledger → Ledger → Type 0
  Keeps l l₀ = (l₀.dead_letters ≡ l.dead_letters) × (l₀.queue ≡ l.queue)

  make_attempt-Keeps :
      (attempt : ℕ) (l l₀ : Ledger) → Keeps l l₀ → Keeps l (make_attempt run event dest attempt l₀)
  unfolding make_attempt
  make_attempt-Keeps attempt l l₀ same = ground arith

  succeed-Keeps :
      (attempt : ℕ) (l l₀ : Ledger) → Keeps l l₀ → Keeps l (succeed run event dest attempt l₀)
  unfolding succeed
  succeed-Keeps attempt l l₀ same = ground arith

  module _ (up : run.redis_fails ≡ false) (written : run.dead_letter_fails ≡ false)
      (l : Ledger) where
    after_attempt-Buried :
        (next : Ledger → Outcome × Ledger) (attempt : ℕ) (l₀ : Ledger) (d : Decision)
        → ((l₁ : Ledger) → Keeps l l₁ → Buried l (next l₁))
        → d ≡ decide (run.answer attempt)
        → Keeps l l₀
        → Buried l (after_attempt marshal unmarshal next run event dest attempt l₀ d)
    after_attempt-Buried next attempt l₀ (done delivered) rest e same =
        succeed-Keeps attempt l l₀ same
    after_attempt-Buried next attempt l₀ (done refused) rest e same =
        unfold refuse in move_to_dlq-Buried _ refused l l₀ up written refl same
    after_attempt-Buried next attempt l₀ (done o) rest e same =
        absurd (elim (decide-done (run.answer attempt) _ (sym e)) [ inl p ↦ cc | inr p ↦ cc ])
    after_attempt-Buried next attempt l₀ retry rest e same = rest l₀ same

    after_wait-Buried :
        (next : Ledger → Outcome × Ledger) (attempt : ℕ) (l₀ : Ledger) (w : Waited)
        → ((l₁ : Ledger) → Keeps l l₁ → Buried l (next l₁))
        → wait_for run attempt l₀ ≡ w
        → Keeps l l₀
        → Buried l (after_wait marshal unmarshal next run event dest attempt l₀ w)
    after_wait-Buried next attempt l₀ out_of_range rest e same = same
    after_wait-Buried next attempt l₀ interrupted rest e same = same
    after_wait-Buried next attempt l₀ (waited l') rest e same =
        after_attempt-Buried next attempt (make_attempt run event dest attempt l')
          (decide (run.answer attempt)) rest refl
          (make_attempt-Keeps attempt l l' (ground (arith, wait_for_keeps attempt l₀ l' e)))

    deliver_from-Buried :
        (left attempt : ℕ) (l₀ : Ledger)
        → Keeps l l₀
        → Buried l (deliver_from marshal unmarshal left attempt run event dest l₀)
    deliver_from-Buried zero attempt l₀ same =
        unfold deliver_from exhaust in
        move_to_dlq-Buried _ exhausted l _ up written refl (ground arith)
    deliver_from-Buried (suc left) attempt l₀ same =
        rw (deliver_from-suc marshal unmarshal run event dest left attempt l₀) (
          after_wait-Buried (deliver_from marshal unmarshal left (attempt + 1) run event dest)
            attempt l₀ (wait_for run attempt l₀) (deliver_from-Buried left (attempt + 1)) refl same)

  -- If neither Redis nor the table of dead letters fails: a delivery that ends refused or exhausted
  -- leaves exactly one entry, for this event and destination, at the end of the table, and the
  -- whole event, as it would be queued, at the end of the Redis list. A delivery that ends otherwise
  -- leaves both, and the other queues, as they were.
  pub deliver_to_destination-move_to_dlq :
      (l : Ledger)
      → run.redis_fails ≡ false
      → run.dead_letter_fails ≡ false
      → let (o, l') = deliver_to_destination marshal unmarshal run event dest l in
        (is_dead o ≡ true
          → (reason : String) × (l'.dead_letters ≡ l.dead_letters ++ entry_for reason ∷ [])
            × (l'.queue ≡ record (l.queue) { dlq_list = l.queue.dlq_list ++ marshal event ∷ [] }))
        × (is_dead o ≡ false → (l'.dead_letters ≡ l.dead_letters) × (l'.queue ≡ l.queue))
  unfolding deliver_to_destination
  deliver_to_destination-move_to_dlq l up written =
      read_off l (deliver_from marshal unmarshal run.max_retries 1 run event dest l)
        (deliver_from-Buried up written l run.max_retries 1 l (refl, refl))
    where
      read_off :
          (l : Ledger) (end : Outcome × Ledger)
          → Buried l end
          → (is_dead end.0 ≡ true
              → (reason : String) × (end.1.dead_letters ≡ l.dead_letters ++ entry_for reason ∷ [])
                × (end.1.queue
                    ≡ record (l.queue) { dlq_list = l.queue.dlq_list ++ marshal event ∷ [] }))
            × (is_dead end.0 ≡ false
                → (end.1.dead_letters ≡ l.dead_letters) × (end.1.queue ≡ l.queue))
      read_off l (o, l') b = (λ h. rw h at b, λ h. rw h at b)
