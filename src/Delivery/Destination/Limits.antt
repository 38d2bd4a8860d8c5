-- ===== src/Delivery/Destination/Limits.antt =====
-- How much one delivery does: how many requests it makes, which bodies, how long it waits, and where the table
-- of delays ends.
use webhook_mind.Prelude.{
  All, All-append, List, Option, String, [], all, ap, append-nil, append_assoc, arith, false,
  get_elem?, if◌then◌else◌, length, length-append, ltb, refl, suc, sym, zero, ℕ, ◌++◌, ◌+◌, ◌<◌,
  ◌==◌, ◌∙◌, ◌∷◌, ◌≡◌, ◌≢◌, ◌≤◌, ◌⊎◌,
}
use webhook_mind.Models.{WebhookEvent}
use webhook_mind.Routing.{Destination}
use webhook_mind.Delivery.Destination.{
  ClientRequest, Decision, HttpAnswer, Ledger, Outcome, Run, Waited, after_attempt, after_wait,
  answered, attempt_delivery, bad_request, cancelled, decide, deliver_from, deliver_to_destination,
  delivered, done, exhaust, exhausted, interrupted, make_attempt, move_to_dlq, out_of_range,
  panicked, refuse, refused, request_of, retry, retry_delays, status_and_error, succeed,
  transport_error, wait_for, waited,
}
use webhook_mind.Delivery.Destination.Verdict.{
  IsRetried, decide-IsRetried, deliver_from-suc, round_retry,
}

abbrev pub sum : List ℕ → ℕ
sum [] = 0
sum (n ∷ ns) = n + sum ns

sum-snoc : (ns : List ℕ) (n : ℕ) → sum (ns ++ n ∷ []) ≡ sum ns + n
sum-snoc [] n = omega arith
sum-snoc (m ∷ ns) n = omega (arith, sum-snoc ns n)

-- The seconds that are still to be waited from an attempt on.
abbrev rest_of_delays : ℕ → ℕ
rest_of_delays attempt =
    if ltb attempt 3 then 155 else if attempt == 3 then 150 else if attempt == 4 then 120 else 0

wait_for-sum :
    (run : Run) (attempt : ℕ) (l l' : Ledger)
    → 1 ≤ attempt
    → wait_for run attempt l ≡ waited l'
    → (sum l'.waits + rest_of_delays (attempt + 1) ≤ sum l.waits + rest_of_delays attempt)
      × (l'.requests ≡ l.requests)
unfolding wait_for
wait_for-sum run zero l l' h e = absurd (omega arith)
wait_for-sum run (suc zero) l l' h e = ground arith
wait_for-sum run (suc (suc zero)) l l' h e = ground (arith, sum-snoc l.waits 5)
wait_for-sum run (suc (suc (suc zero))) l l' h e = ground (arith, sum-snoc l.waits 30)
wait_for-sum run (suc (suc (suc (suc zero)))) l l' h e = ground (arith, sum-snoc l.waits 120)
wait_for-sum run (suc (suc (suc (suc (suc n))))) l l' h e =
    absurd (ground (arith, refl {a = get_elem? retry_delays (4 + n)}))

module _ (marshal : WebhookEvent → List ℕ) (unmarshal : List ℕ → Option WebhookEvent) (run : Run)
    (event : WebhookEvent) (dest : Destination) where
  -- A post of this delivery.
  abbrev pub IsOwnRequest : ClientRequest → Type 0
  IsOwnRequest p = (p.url ≡ dest.url) × (p.body ≡ event.raw_body) × (p.headers ≡ event.headers)

  -- The requests of `k` attempts from one on: one for each that could be built.
  abbrev pub built : HttpAnswer → ℕ
  built (bad_request e) = 0
  built (transport_error e) = 1
  built (answered code) = 1

  abbrev pub built_in : ℕ → ℕ → ℕ
  built_in attempt zero = 0
  built_in attempt (suc k) = built (run.answer attempt) + built_in (attempt + 1) k

  -- What a run that may make `left` attempts from `attempt` on does from `l` to its end: the
  -- requests of `k` attempts, all `left` of them if it is exhausted and `least` at least if it was
  -- decided, and the waits that were still due.
  abbrev Bounded : ℕ → ℕ → ℕ → ℕ → Ledger → Outcome × Ledger → Type 0
  Bounded least attempt left due l (o, l') =
      ((ps : List ClientRequest) × (k : ℕ) × (l'.requests ≡ l.requests ++ ps)
        × (k ≤ left)
        × (length ps ≡ built_in attempt k)
        × All IsOwnRequest ps
        × (o ≡ exhausted → k ≡ left)
        × ((o ≡ delivered) ⊎ (o ≡ refused) → least ≤ k))
      × (sum l'.waits ≤ sum l.waits + due)

  make_attempt-requests :
      (attempt : ℕ) (l : Ledger)
      → (ps : List ClientRequest) × ((make_attempt run event dest attempt l).requests
          ≡ l.requests ++ ps)
        × (length ps ≡ built (run.answer attempt))
        × All IsOwnRequest ps
        × ((make_attempt run event dest attempt l).waits ≡ l.waits)
  unfolding make_attempt attempt_delivery
  make_attempt-requests attempt l = go (run.answer attempt)
    where
      go :
          (a : HttpAnswer)
          → (ps : List ClientRequest) × (l.requests ++ request_of event dest a ≡ l.requests ++ ps)
            × (length ps ≡ built a)
            × All IsOwnRequest ps
            × (l.waits ≡ l.waits)
      go (bad_request e) = ([], refl, refl, tt, refl)
      go (transport_error e) = (_, refl, refl, ((refl, refl, refl), tt), refl)
      go (answered code) = (_, refl, refl, ((refl, refl, refl), tt), refl)

  -- Steps that make no request and wait for nothing.
  abbrev Quiet : Ledger → Ledger → Type 0
  Quiet l l' = (l'.requests ≡ l.requests) × (l'.waits ≡ l.waits)

  Quiet-Bounded :
      (least attempt left due : ℕ) (l : Ledger) (o : Outcome) (l' : Ledger)
      → Quiet l l'
      → (o ≡ exhausted → 0 ≡ left)
      → ((o ≡ delivered) ⊎ (o ≡ refused) → least ≤ 0)
      → Bounded least attempt left due l (o, l')
  Quiet-Bounded least attempt left due l o l' (p, w) all some_made = (
    ([], 0, p ∙ sym (append-nil l.requests), omega arith, refl, tt, all, some_made),
    omega (arith, ap sum w),
  )

  move_to_dlq-Quiet :
      (reason : String) (l : Ledger)
      → Quiet l (move_to_dlq marshal unmarshal run event dest reason l)
  unfolding move_to_dlq
  move_to_dlq-Quiet reason l = ground arith

  exhaust-Quiet : (l : Ledger) → Quiet l (exhaust marshal unmarshal run event dest l)
  unfolding exhaust move_to_dlq
  exhaust-Quiet l = ground arith

  refuse-Quiet :
      (status : ℕ) (l : Ledger) → Quiet l (refuse marshal unmarshal run event dest status l)
  unfolding refuse move_to_dlq
  refuse-Quiet status l = ground arith

  succeed-Quiet : (attempt : ℕ) (l : Ledger) → Quiet l (succeed run event dest attempt l)
  unfolding succeed
  succeed-Quiet attempt l = ground arith

  -- One attempt, then what is bounded by one attempt less.
  Bounded-attempt :
      (left due attempt : ℕ) (l : Ledger) (r : Outcome × Ledger)
      → Bounded 0 (attempt + 1) left due (make_attempt run event dest attempt l) r
      → Bounded 1 attempt (suc left) due l r
  Bounded-attempt left due attempt l r ((qs, k, q, few, count, all_q, full, some_made), w) =
      let (ps, p, one, all_p, same) = make_attempt-requests attempt l in
      (
        (
          ps ++ qs,
          suc k,
          q ∙ ap (λ x. x ++ qs) p ∙ append_assoc l.requests ps qs,
          omega arith,
          omega (arith, length-append ps qs),
          All-append IsOwnRequest ps qs all_p all_q,
          λ e. ap suc (full e),
          λ e. omega arith,
        ),
        omega (arith, ap sum same),
      )

  after_attempt-Bounded :
      (next : Ledger → Outcome × Ledger) (attempt left due : ℕ) (l : Ledger) (d : Decision)
      → d ≢ done exhausted
      → ((l₁ : Ledger) → Bounded 1 (attempt + 1) left due l₁ (next l₁))
      → Bounded 0
          (attempt + 1)
          left
          due
          l
          (after_attempt marshal unmarshal next run event dest attempt l d)
  after_attempt-Bounded next attempt left due l (done delivered) ne rest =
      Quiet-Bounded 0 (attempt + 1) left due l delivered (succeed run event dest attempt l)
        (succeed-Quiet attempt l) (λ e. cc) (λ e. omega arith)
  after_attempt-Bounded next attempt left due l (done o) ne rest =
      Quiet-Bounded 0 (attempt + 1) left due l o
        (refuse marshal unmarshal run event dest (status_and_error (run.answer attempt)).0 l)
        (refuse-Quiet (status_and_error (run.answer attempt)).0 l) (λ e. absurd (ne (ap done e)))
        (λ e. omega arith)
  after_attempt-Bounded next attempt left due l retry ne rest =
      let ((ps, k, p, few, count, all, full, some_made), w) = rest l in
      ((ps, k, p, few, count, all, full, λ e. omega arith), w)

  decide_not_exhausted : (a : HttpAnswer) → decide a ≢ done exhausted
  unfolding decide
  decide_not_exhausted a = ground arith

  after_wait-Bounded :
      (next : Ledger → Outcome × Ledger) (attempt left : ℕ) (l : Ledger) (w : Waited)
      → 1 ≤ attempt
      → ((l₁ : Ledger) → Bounded 1 (attempt + 1) left (rest_of_delays (attempt + 1)) l₁ (next l₁))
      → wait_for run attempt l ≡ w
      → Bounded 1 attempt
          (suc left)
          (rest_of_delays attempt)
          l
          (after_wait marshal unmarshal next run event dest attempt l w)
  after_wait-Bounded next attempt left l out_of_range h rest e =
      Quiet-Bounded 1 attempt (suc left) (rest_of_delays attempt) l panicked l (refl, refl)
        (λ e. cc) (λ e. ground arith)
  after_wait-Bounded next attempt left l interrupted h rest e =
      Quiet-Bounded 1 attempt (suc left) (rest_of_delays attempt) l cancelled l (refl, refl)
        (λ e. cc) (λ e. ground arith)
  after_wait-Bounded next attempt left l (waited l') h rest e =
      let (less, same) = wait_for-sum run attempt l l' h e in
      let ((ps, k, p, few, count, all_p, full, some_made), w) =
        Bounded-attempt left (rest_of_delays (attempt + 1)) attempt l'
          (after_attempt marshal unmarshal next run event dest attempt
            (make_attempt run event dest attempt l') (decide (run.answer attempt)))
          (after_attempt-Bounded next attempt left (rest_of_delays (attempt + 1))
            (make_attempt run event dest attempt l') (decide (run.answer attempt))
            (decide_not_exhausted (run.answer attempt)) rest) in
      ((ps, k, p ∙ ap (λ x. x ++ ps) same, few, count, all_p, full, some_made), omega arith)

  deliver_from-Bounded :
      (left attempt : ℕ) (l : Ledger)
      → 1 ≤ attempt
      → Bounded 1 attempt left
          (rest_of_delays attempt)
          l
          (deliver_from marshal unmarshal left attempt run event dest l)
  unfolding deliver_from
  deliver_from-Bounded zero attempt l h =
      Quiet-Bounded 1 attempt 0 (rest_of_delays attempt) l exhausted
        (exhaust marshal unmarshal run event dest l) (exhaust-Quiet l) (λ e. refl)
        (λ e. ground arith)
  deliver_from-Bounded (suc left) attempt l h =
      rw (deliver_from-suc marshal unmarshal run event dest left attempt l) (
        after_wait-Bounded (deliver_from marshal unmarshal left (attempt + 1) run event dest)
          attempt left l (wait_for run attempt l) h
          (λ l₁. deliver_from-Bounded left (attempt + 1) l₁ (omega arith)) refl)

  -- Whatever is answered and whatever fails, one delivery hands the HTTP client the requests of its
  -- first `k` attempts, at most `max_retries`: one for each attempt whose request can be built, with
  -- the destination's address and the event's body and headers. If it ends with its attempts
  -- exhausted, `k` is `max_retries`; if it ends delivered or refused, `k` is one at least. It waits
  -- 155 seconds at most. (The requests to which redirects lead are the client's, and not counted.)
  pub deliver_to_destination_bounds :
      (l : Ledger)
      → let (o, l') = deliver_to_destination marshal unmarshal run event dest l in
        ((ps : List ClientRequest) × (k : ℕ) × (l'.requests ≡ l.requests ++ ps)
          × (k ≤ run.max_retries)
          × (length ps ≡ built_in 1 k)
          × All IsOwnRequest ps
          × (o ≡ exhausted → k ≡ run.max_retries)
          × ((o ≡ delivered) ⊎ (o ≡ refused) → 1 ≤ k))
        × (sum l'.waits ≤ sum l.waits + 155)
  unfolding deliver_to_destination
  deliver_to_destination_bounds l = deliver_from-Bounded run.max_retries 1 l (omega arith)

  -- With five retries or more configured, a context that is not cancelled and four attempts that
  -- are neither a success nor a 4xx, the fifth attempt indexes the table of delays out of range.
  pub deliver_to_destination_panics :
      (l : Ledger) (more : ℕ)
      → run.max_retries ≡ 5 + more
      → ((j : ℕ) → run.context_done j ≡ false)
      → ((j : ℕ) → j < 4 → IsRetried (run.answer (1 + j)))
      → (deliver_to_destination marshal unmarshal run event dest l).0 ≡ panicked
  unfolding deliver_to_destination
  deliver_to_destination_panics l more many c again =
      let e : run.max_retries ≡ suc (suc (suc (suc (suc more)))) = omega arith in
      let (l₁, s₁) =
        round_retry marshal unmarshal run event dest (suc (suc (suc (suc more)))) 1 l (omega arith)
          (c 1) (decide-IsRetried _ (again 0 (omega arith))) in
      let (l₂, s₂) =
        round_retry marshal unmarshal run event dest (suc (suc (suc more))) 2 l₁ (omega arith) (c 2)
          (decide-IsRetried _ (again 1 (omega arith))) in
      let (l₃, s₃) =
        round_retry marshal unmarshal run event dest (suc (suc more)) 3 l₂ (omega arith) (c 3)
          (decide-IsRetried _ (again 2 (omega arith))) in
      let (l₄, s₄) =
        round_retry marshal unmarshal run event dest (suc more) 4 l₃ (omega arith) (c 4)
          (decide-IsRetried _ (again 3 (omega arith))) in
      rw (e, s₁, s₂, s₃, s₄, wait_for)
