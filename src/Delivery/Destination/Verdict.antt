-- ===== src/Delivery/Destination/Verdict.antt =====
-- How a delivery ends.
use webhook_mind.Prelude.{
  List, Option, String, ap, arith, false, inl, inr, refl, suc, zero, ℕ, ◌+◌, ◌<◌, ◌∙◌, ◌≡◌, ◌≤◌,
  ◌⊎◌,
}
use webhook_mind.Models.{WebhookEvent}
use webhook_mind.Routing.{Destination}
use webhook_mind.Delivery.Destination.{
  HttpAnswer, Ledger, Outcome, Run, after_wait, answered, bad_request, decide, deliver_from,
  deliver_to_destination, delivered, done, exhausted, make_attempt, refused, retry, transport_error,
  wait_for, waited,
}

-- The answers by what the retry policy makes of them: success, a permanent failure, another try.
pub data IsSuccess : HttpAnswer → Type 0 where
  code_2xx : (code : ℕ) → 200 ≤ code → code < 300 → IsSuccess (answered code)

pub data IsRefusal : HttpAnswer → Type 0 where
  code_4xx : (code : ℕ) → 400 ≤ code → code < 500 → IsRefusal (answered code)

pub data IsRetried : HttpAnswer → Type 0 where
  no_request : (e : String) → IsRetried (bad_request e)
  no_answer : (e : String) → IsRetried (transport_error e)
  below_200 : (code : ℕ) → code < 200 → IsRetried (answered code)
  code_3xx : (code : ℕ) → 300 ≤ code → code < 400 → IsRetried (answered code)
  from_500 : (code : ℕ) → 500 ≤ code → IsRetried (answered code)

pub decide-IsSuccess : (a : HttpAnswer) → IsSuccess a → decide a ≡ done delivered
unfolding decide
decide-IsSuccess (bad_request e) h = elim h [ ]
decide-IsSuccess (transport_error e) h = elim h [ ]
decide-IsSuccess (answered code) (code_2xx _ from below) = ground arith

pub decide-IsRefusal : (a : HttpAnswer) → IsRefusal a → decide a ≡ done refused
unfolding decide
decide-IsRefusal (bad_request e) h = elim h [ ]
decide-IsRefusal (transport_error e) h = elim h [ ]
decide-IsRefusal (answered code) (code_4xx _ from below) = ground arith

pub decide-IsRetried : (a : HttpAnswer) → IsRetried a → decide a ≡ retry
unfolding decide
decide-IsRetried (bad_request e) (no_request _) = refl
decide-IsRetried (transport_error e) (no_answer _) = refl
decide-IsRetried (answered code) (below_200 _ below) = ground arith
decide-IsRetried (answered code) (code_3xx _ from below) = ground arith
decide-IsRetried (answered code) (from_500 _ from) = ground arith

-- `decide` never ends with another outcome than these two.
pub decide-done :
    (a : HttpAnswer) (o : Outcome) → decide a ≡ done o → (o ≡ delivered) ⊎ (o ≡ refused)
unfolding decide
decide-done a o h = ground arith

wait_for-uninterrupted :
    (run : Run) (attempt : ℕ) (l : Ledger)
    → attempt ≤ 4
    → run.context_done attempt ≡ false
    → (l' : Ledger) × (wait_for run attempt l ≡ waited l')
unfolding wait_for
wait_for-uninterrupted run zero l h c = (l, refl)
wait_for-uninterrupted run (suc zero) l h c = (l, refl)
wait_for-uninterrupted run (suc (suc zero)) l h c = rw c (_, refl)
wait_for-uninterrupted run (suc (suc (suc zero))) l h c = rw c (_, refl)
wait_for-uninterrupted run (suc (suc (suc (suc zero)))) l h c = rw c (_, refl)
wait_for-uninterrupted run (suc (suc (suc (suc (suc n))))) l h c = absurd (omega arith)

module _ (marshal : WebhookEvent → List ℕ) (unmarshal : List ℕ → Option WebhookEvent) (run : Run)
    (event : WebhookEvent) (dest : Destination) where
  -- One round that is neither cut short nor decided leads to the next.
  pub deliver_from-suc :
      (left attempt : ℕ) (l : Ledger)
      → deliver_from marshal unmarshal (suc left) attempt run event dest l
        ≡ after_wait marshal unmarshal
            (deliver_from marshal unmarshal left (attempt + 1) run event dest)
            run
            event
            dest
            attempt
            l
            (wait_for run attempt l)
  unfolding deliver_from
  deliver_from-suc left attempt l = refl

  pub round_retry :
      (left attempt : ℕ) (l : Ledger)
      → attempt ≤ 4
      → run.context_done attempt ≡ false
      → decide (run.answer attempt) ≡ retry
      → (l' : Ledger) × (deliver_from marshal unmarshal (suc left) attempt run event dest l
          ≡ deliver_from marshal unmarshal left (attempt + 1) run event dest l')
  round_retry left attempt l few c again =
      let (l', w) = wait_for-uninterrupted run attempt l few c in
      (make_attempt run event dest attempt l', rw (deliver_from-suc left attempt l, w, again))

  pub round_done :
      (left attempt : ℕ) (l : Ledger) (o : Outcome)
      → attempt ≤ 4
      → run.context_done attempt ≡ false
      → decide (run.answer attempt) ≡ done o
      → (deliver_from marshal unmarshal (suc left) attempt run event dest l).0 ≡ o
  round_done left attempt l o few c ends =
      let (l', w) = wait_for-uninterrupted run attempt l few c in
      rw (deliver_from-suc left attempt l, w, ends)
        (elim (decide-done (run.answer attempt) o ends) [ inl e ↦ rw e | inr e ↦ rw e ])

  deliver_from-decided :
      (i left attempt : ℕ) (l : Ledger) (o : Outcome)
      → i < left
      → attempt + left ≤ 5
      → ((j : ℕ) → run.context_done j ≡ false)
      → ((j : ℕ) → j < i → decide (run.answer (attempt + j)) ≡ retry)
      → decide (run.answer (attempt + i)) ≡ done o
      → (deliver_from marshal unmarshal left attempt run event dest l).0 ≡ o
  deliver_from-decided i zero attempt l o h room c before ends = elim h [ ]
  deliver_from-decided zero (suc left) attempt l o h room c before ends =
      round_done left attempt l o (omega arith) (c attempt)
        (ap (λ n. decide (run.answer n)) (omega arith) ∙ ends)
  deliver_from-decided (suc i) (suc left) attempt l o h room c before ends =
      let now : decide (run.answer attempt) ≡ retry =
        ap (λ n. decide (run.answer n)) (omega arith) ∙ before 0 (omega arith) in
      let (l', step) = round_retry left attempt l (omega arith) (c attempt) now in
      rw step (
        deliver_from-decided i left (attempt + 1) l' o (omega arith) (omega arith) c
          (λ j hj. ap (λ n. decide (run.answer n)) (omega arith) ∙ before (suc j) (omega arith))
          (ap (λ n. decide (run.answer n)) (omega arith) ∙ ends))

  deliver_from-undecided :
      (left attempt : ℕ) (l : Ledger)
      → attempt + left ≤ 5
      → ((j : ℕ) → run.context_done j ≡ false)
      → ((j : ℕ) → j < left → decide (run.answer (attempt + j)) ≡ retry)
      → (deliver_from marshal unmarshal left attempt run event dest l).0 ≡ exhausted
  deliver_from-undecided zero attempt l room c all_retry = unfold deliver_from in refl
  deliver_from-undecided (suc left) attempt l room c all_retry =
      let now : decide (run.answer attempt) ≡ retry =
        ap (λ n. decide (run.answer n)) (omega arith) ∙ all_retry 0 (omega arith) in
      let (l', step) = round_retry left attempt l (omega arith) (c attempt) now in
      rw step (
        deliver_from-undecided left (attempt + 1) l' (omega arith) c
          (λ j hj. ap (λ n. decide (run.answer n)) (omega arith) ∙ all_retry (suc j) (omega arith)))

  -- With at most four retries and a context that is not cancelled, the first attempt that is
  -- answered by a 2xx or a 4xx decides: after it the event counts as delivered or refused. If no
  -- attempt is, since each of them fails on the way or is answered otherwise, the delivery ends as
  -- exhausted.
  pub deliver_to_destination_verdict :
      (l : Ledger)
      → run.max_retries ≤ 4
      → ((j : ℕ) → run.context_done j ≡ false)
      → ((i : ℕ)
          → i < run.max_retries
          → ((j : ℕ) → j < i → IsRetried (run.answer (1 + j)))
          → (IsSuccess (run.answer (1 + i))
              → (deliver_to_destination marshal unmarshal run event dest l).0 ≡ delivered)
            × (IsRefusal (run.answer (1 + i))
                → (deliver_to_destination marshal unmarshal run event dest l).0 ≡ refused))
        × (((j : ℕ) → j < run.max_retries → IsRetried (run.answer (1 + j)))
            → (deliver_to_destination marshal unmarshal run event dest l).0 ≡ exhausted)
  unfolding deliver_to_destination
  deliver_to_destination_verdict l few c = (
    λ i h before. (
      λ good.
          deliver_from-decided i run.max_retries 1 l delivered h (omega arith) c
            (λ j hj. decide-IsRetried _ (before j hj)) (decide-IsSuccess _ good),
      λ bad.
          deliver_from-decided i run.max_retries 1 l refused h (omega arith) c
            (λ j hj. decide-IsRetried _ (before j hj)) (decide-IsRefusal _ bad),
    ),
    λ again.
        deliver_from-undecided run.max_retries 1 l (omega arith) c
          (λ j hj. decide-IsRetried _ (again j hj)),
  )
