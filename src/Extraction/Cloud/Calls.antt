-- ===== src/Extraction/Cloud/Calls.antt =====
-- What the retries of `callProvider` come to.
use webhook_mind.Prelude.{
  Bool, Bool-cases, List, Option, String, [], ap, append-nil, append_assoc, arith, false, inl, inr,
  not, refl, subst, suc, sym, true, zero, ℕ, ◌++◌, ◌+◌, ◌<◌, ◌==◌, ◌||◌, ◌∙◌, ◌∷◌, ◌≡◌, ◌≤◌, ◌⊎◌,
}
use webhook_mind.Extraction.Cloud.{
  Call, Failure, LlmProvider, Log, Reply, after_call, backoff, call_from, call_provider,
  call_provider_once, context_ended, replied, send, unbuilt, unreachable, unread,
}

abbrev pub is_final : List ℕ ⊎ Failure → Bool
is_final (inl text) = true
is_final (inr f) = not f.retryable

abbrev pub to_answer : List ℕ ⊎ Failure → List ℕ ⊎ String
to_answer (inl text) = inl text
to_answer (inr f) = inr f.message

abbrev pub copies : ℕ → Call → List Call
copies zero call = []
copies (suc n) call = call ∷ copies n call

module _ (parse_time : List ℕ → Option ℕ) (now : ℕ) (p : LlmProvider) (call : Call)
    (reply : ℕ → Reply) (context_done : ℕ → Bool) where
  after_final :
      (next : Log → (List ℕ ⊎ String) × Log) (left attempt : ℕ) (l : Log) (d : List ℕ ⊎ Failure)
      → (is_final d ≡ true) ⊎ (left ≡ 0)
      → (after_call parse_time now p call reply context_done next left attempt l d).0 ≡ to_answer d
  after_final next left attempt l (inl text) h = refl
  after_final next left attempt l (inr f) h = ground arith

  after_more :
      (left : ℕ)
      → 0 < left
      → (next : Log → (List ℕ ⊎ String) × Log) (attempt : ℕ) (l : Log) (d : List ℕ ⊎ Failure)
      → is_final d ≡ false
      → context_done attempt ≡ false
      → (l' : Log) × (after_call parse_time now p call reply context_done next left attempt l d
          ≡ next l')
  after_more left more next attempt l (inl text) h c = absurd (ground arith)
  after_more left more next attempt l (inr f) h c =
      (record l { waits = l.waits ++ backoff parse_time now attempt f ∷ [] }, ground arith)

  -- What at most `n` calls add to a log.
  abbrev Adds : ℕ → List Call → List Call → Type 0
  Adds n before after = (m : ℕ) × (m ≤ n) × (after ≡ before ++ copies m call)

  Adds-trans : (n : ℕ) (a b c : List Call) → Adds 1 a b → Adds n b c → Adds (suc n) a c
  Adds-trans n a b c (j, small, first) (k, bound, later) = (
    j + k,
    omega arith,
    later
        ∙ ap (λ x. x ++ copies k call) first
        ∙ append_assoc a (copies j call) (copies k call)
        ∙ ap (λ x. a ++ x) (copies-add j k),
  )
    where
      copies-add : (j k : ℕ) → copies j call ++ copies k call ≡ copies (j + k) call
      copies-add zero k = ap (λ n. copies n call) (omega arith)
      copies-add (suc j) k =
          let e : suc (j + k) ≡ suc j + k = omega arith in
          ap (λ x. call ∷ x) (copies-add j k) ∙ ap (λ n. copies n call) e

  send-Adds :
      (r : Reply) (l : Log)
      → Adds 1 l.calls (send parse_time now p call reply context_done r l).calls
  send-Adds (unbuilt e) l = (0, omega arith, sym (append-nil l.calls))
  send-Adds (context_ended e) l = (1, omega arith, refl)
  send-Adds (unreachable e) l = (1, omega arith, refl)
  send-Adds (unread e) l = (1, omega arith, refl)
  send-Adds (replied code after body) l = (1, omega arith, refl)

  after_call-Adds :
      (next : Log → (List ℕ ⊎ String) × Log) (left attempt : ℕ) (l : Log) (d : List ℕ ⊎ Failure)
      → ((l' : Log) → Adds left l'.calls (next l').1.calls)
      → Adds left l.calls
          (after_call parse_time now p call reply context_done next left attempt l d).1.calls
  after_call-Adds next left attempt l (inl text) h = (0, omega arith, sym (append-nil l.calls))
  after_call-Adds next left attempt l (inr f) h =
      elim (Bool-cases (not f.retryable || (left == 0))) [
        | inl over ↦ rw over (0, omega arith, sym (append-nil l.calls))
        | inr more ↦ elim (Bool-cases (context_done attempt)) [
          | inl done ↦ rw (more, done) (0, omega arith, sym (append-nil l.calls))
          | inr waiting ↦ rw (more, waiting) (h _)
        ]
      ]

  call_from-Adds :
      (left attempt : ℕ) (l : Log)
      → Adds left l.calls
          (call_from parse_time now p call reply context_done left attempt l).1.calls
  unfolding call_from
  call_from-Adds zero attempt l = (0, omega arith, sym (append-nil l.calls))
  call_from-Adds (suc left) attempt l = Adds-trans left l.calls _ _ (send-Adds (reply attempt) l) (
      after_call-Adds (call_from parse_time now p call reply context_done left (attempt + 1)) left
        attempt _ _ (call_from-Adds left (attempt + 1)))

  -- Whatever is answered, a request makes at most three calls, all with the same key and body, and
  -- nothing else goes out.
  pub call_provider_bounds :
      (l : Log)
      → (m : ℕ) × (m ≤ 3)
        × ((call_provider parse_time now p call reply context_done l).1.calls
            ≡ l.calls ++ copies m call)
  unfolding call_provider
  call_provider_bounds l = call_from-Adds 3 1 l

  abbrev final_at : ℕ → Bool
  final_at attempt = is_final (call_provider_once parse_time now p (reply attempt))

  call_from-to_answer :
      (k left attempt : ℕ) (l : Log)
      → ((j : ℕ) → context_done j ≡ false)
      → k < left
      → ((j : ℕ) → j < k → final_at (j + attempt) ≡ false)
      → (final_at (k + attempt) ≡ true) ⊎ (left ≡ k + 1)
      → (call_from parse_time now p call reply context_done left attempt l).0
        ≡ to_answer (call_provider_once parse_time now p (reply (k + attempt)))
  unfolding call_from
  call_from-to_answer k zero attempt l c h b d = absurd (omega arith)
  call_from-to_answer zero (suc left) attempt l c h b d =
      let same : 0 + attempt ≡ attempt = omega arith in
      rw same (
        after_final (call_from parse_time now p call reply context_done left (attempt + 1)) left
          attempt (send parse_time now p call reply context_done (reply attempt) l)
          (call_provider_once parse_time now p (reply attempt))
          (elim d [ inl f ↦ inl (rw same at f) | inr e ↦ inr (omega arith) ]))
  call_from-to_answer (suc k) (suc left) attempt l c h b d =
      let moved : (j : ℕ) → suc j + attempt ≡ j + (attempt + 1) = λ j. omega arith in
      let first : final_at attempt ≡ false =
        subst (λ n. final_at n ≡ false) (omega arith) (b 0 (omega arith)) in
      let (l', e) =
        after_more left (omega arith)
          (call_from parse_time now p call reply context_done left (attempt + 1)) attempt
          (send parse_time now p call reply context_done (reply attempt) l)
          (call_provider_once parse_time now p (reply attempt)) first (c attempt) in
      ap (λ x. x.0) e
      ∙ (rw (moved k) (
          call_from-to_answer k left (attempt + 1) l' c (omega arith)
            (λ j small. subst (λ n. final_at n ≡ false) (moved j) (b (suc j) (omega arith)))
            (elim d [ inl f ↦ inl (rw (moved k) at f) | inr e ↦ inr (omega arith) ])))

  -- The answer of the first attempt that is a success or a failure which no retry can mend is the
  -- answer; if the first two are neither, it is that of the third. This is so if the context does
  -- not end between two attempts.
  pub call_provider_verdict :
      (k : ℕ) (l : Log)
      → ((j : ℕ) → context_done j ≡ false)
      → k < 3
      → ((j : ℕ) → j < k → is_final (call_provider_once parse_time now p (reply (j + 1))) ≡ false)
      → (is_final (call_provider_once parse_time now p (reply (k + 1))) ≡ true) ⊎ (k ≡ 2)
      → (call_provider parse_time now p call reply context_done l).0
        ≡ to_answer (call_provider_once parse_time now p (reply (k + 1)))
  unfolding call_provider
  call_provider_verdict k l c h b d =
      call_from-to_answer k 3 1 l c h b (elim d [ inl f ↦ inl f | inr e ↦ inr (omega arith) ])
