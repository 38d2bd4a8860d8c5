-- ===== src/Delivery/Destination/Safe.antt =====
-- With four retries or fewer, the table of delays has an entry for every wait.
use webhook_mind.Prelude.{
  List, Option, arith, inl, inr, refl, suc, sym, zero, ℕ, ◌+◌, ◌≡◌, ◌≢◌, ◌≤◌,
}
use webhook_mind.Models.{WebhookEvent}
use webhook_mind.Routing.{Destination}
use webhook_mind.Delivery.Destination.{
  Decision, Ledger, Outcome, Run, Waited, after_attempt, after_wait, decide, deliver_from,
  deliver_to_destination, delivered, done, interrupted, make_attempt, out_of_range, panicked, retry,
  wait_for, waited,
}
use webhook_mind.Delivery.Destination.Verdict.{decide-done, deliver_from-suc}

wait_for_in_range :
    (run : Run) (attempt : ℕ) (l : Ledger) → attempt ≤ 4 → wait_for run attempt l ≢ out_of_range
unfolding wait_for
wait_for_in_range run zero l h = λ e. ground arith
wait_for_in_range run (suc zero) l h = λ e. ground arith
wait_for_in_range run (suc (suc zero)) l h = λ e. ground arith
wait_for_in_range run (suc (suc (suc zero))) l h = λ e. ground arith
wait_for_in_range run (suc (suc (suc (suc zero)))) l h = λ e. ground arith
wait_for_in_range run (suc (suc (suc (suc (suc n))))) l h = λ e. absurd (omega arith)

module _ (marshal : WebhookEvent → List ℕ) (unmarshal : List ℕ → Option WebhookEvent) (run : Run)
    (event : WebhookEvent) (dest : Destination) where
  after_attempt_safe :
      (next : Ledger → Outcome × Ledger) (attempt : ℕ) (l : Ledger) (d : Decision)
      → ((l₁ : Ledger) → (next l₁).0 ≢ panicked)
      → d ≡ decide (run.answer attempt)
      → (after_attempt marshal unmarshal next run event dest attempt l d).0 ≢ panicked
  after_attempt_safe next attempt l (done delivered) rest e = λ p. cc
  after_attempt_safe next attempt l (done o) rest e =
      elim (decide-done (run.answer attempt) _ (sym e)) [ inl p ↦ λ q. cc | inr p ↦ λ q. cc ]
  after_attempt_safe next attempt l retry rest e = rest l

  after_wait_safe :
      (next : Ledger → Outcome × Ledger) (attempt : ℕ) (l : Ledger) (w : Waited)
      → ((l₁ : Ledger) → (next l₁).0 ≢ panicked)
      → w ≢ out_of_range
      → (after_wait marshal unmarshal next run event dest attempt l w).0 ≢ panicked
  after_wait_safe next attempt l out_of_range rest h = absurd (h refl)
  after_wait_safe next attempt l interrupted rest h = λ p. cc
  after_wait_safe next attempt l (waited l') rest h =
      after_attempt_safe next attempt (make_attempt run event dest attempt l')
        (decide (run.answer attempt)) rest refl

  deliver_from_safe :
      (left attempt : ℕ) (l : Ledger)
      → attempt + left ≤ 5
      → (deliver_from marshal unmarshal left attempt run event dest l).0 ≢ panicked
  deliver_from_safe zero attempt l room = unfold deliver_from in λ p. cc
  deliver_from_safe (suc left) attempt l room =
      rw (deliver_from-suc marshal unmarshal run event dest left attempt l) (
        after_wait_safe (deliver_from marshal unmarshal left (attempt + 1) run event dest) attempt l
          (wait_for run attempt l) (λ l₁. deliver_from_safe left (attempt + 1) l₁ (omega arith))
          (wait_for_in_range run attempt l (omega arith)))

  pub deliver_to_destination_safe :
      (l : Ledger)
      → run.max_retries ≤ 4
      → (deliver_to_destination marshal unmarshal run event dest l).0 ≢ panicked
  unfolding deliver_to_destination
  deliver_to_destination_safe l few = deliver_from_safe run.max_retries 1 l (omega arith)
