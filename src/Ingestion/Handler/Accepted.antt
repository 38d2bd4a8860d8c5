-- ===== src/Ingestion/Handler/Accepted.antt =====
-- What a request must show to be accepted, what is enqueued for it, and what a refused one leaves.
use mathlib.Core.Option
use webhook_mind.Prelude.{
  Bool, Bool-cases, List, Option, String, [], any, ap, arith, bytes_equal, bytes_equal_refl, codes,
  eq_iff, false, if◌then◌else◌, inl, inr, leb, leb→le, length, lookup, map, none, refl, some,
  str_eq, true, ℕ, ◌&&◌, ◌++◌, ◌<◌, ◌↔◌, ◌∙◌, ◌∷◌, ◌≡◌, ◌≢◌, ◌≤◌, ◌⊎◌,
}
use webhook_mind.Models.{WebhookEvent}
use webhook_mind.Queue.{RedisQueue, enqueue, incoming}
use webhook_mind.Ingestion.Signature.{int64_limit, verify}
use webhook_mind.Ingestion.Signature.Sound.{IsSigned, verify_iff}
use webhook_mind.Ingestion.RateLimit.{Limiter, RateAnswer, RateResult, allow_ip, allow_source}
use webhook_mind.Ingestion.Handler.{
  Handler, Request, Response, Values, World, accepted, after_body, after_rate, after_signature,
  announce, capture_headers, check_rate_limit, check_secret, check_signature, client_ip, enqueued,
  ensure_source, equal_fold, get_header, handle_webhook, is_byok, limited, lower, new_event,
  or_else, read_body, refusal, retry_seconds, secret_answer, signature_max_age,
}

-- Keys that fold to the same text are redacted together.
equal_fold_self : (s t : String) → s ≡ t → equal_fold s t ≡ true
unfolding equal_fold
equal_fold_self s t e = rw e (bytes_equal_refl (map lower (codes t)))

-- The keys that hold a visitor's own key or model, in lower case.
abbrev pub own_keys : List (List ℕ)
own_keys = codes "x-anthropic-key" ∷ codes "x-openai-key" ∷ codes "x-llm-model" ∷ []

is_byok-own_keys : (key : String) → is_byok key ≡ any (bytes_equal (map lower (codes key))) own_keys
unfolding is_byok equal_fold lower
is_byok-own_keys key = ground arith

-- A header is captured with its first value exactly if its key, with its letters in lower case, is
-- none of `x-anthropic-key`, `x-openai-key` and `x-llm-model`.
pub lookup-capture_headers :
    (key : String) (headers : List (String × Values))
    → lookup key (capture_headers headers) ≡ (
        if any (bytes_equal (map lower (codes key))) own_keys
        then none
        else Option.map (λ v. v.first) (lookup key headers))
unfolding capture_headers lookup
lookup-capture_headers key [] = ground arith
lookup-capture_headers key ((j, v) ∷ headers) =
    ground (arith, eq_iff j key, lookup-capture_headers key headers, is_byok-own_keys key)

-- Both kinds of answer that the limiter lets through: an allowed request, and its own failure.
abbrev pub lets_through : Option RateResult → Bool
lets_through none = true
lets_through (some r) = r.allowed

module _ (hmac : List ℕ → List ℕ → List ℕ) (rate : List ℕ → ℕ → Option RateAnswer)
    (split_host_port : List ℕ → Option (List ℕ)) (marshal : WebhookEvent → List ℕ)
    (unmarshal : List ℕ → Option WebhookEvent) where
  -- With a limiter, a request passes exactly if both scopes let it through, and one that does not
  -- is told to wait for one second at least.
  pub check_rate_limit_lem :
      (h : Handler) (r : Request) (l : Limiter)
      → h.limiter ≡ some l
      → let ip = allow_ip rate l (client_ip hmac rate split_host_port marshal unmarshal r) in
        let source = allow_source rate l r.source_id in
        let answer = check_rate_limit hmac rate split_host_port marshal unmarshal h r in
        ((answer ≡ none) ↔ ((lets_through ip && lets_through source) ≡ true))
        × ((scope : String) (secs : ℕ) → answer ≡ some (limited scope secs) → 1 ≤ secs)
  unfolding check_rate_limit retry_seconds
  check_rate_limit_lem h r l e = rw e (
      go (allow_ip rate l (client_ip hmac rate split_host_port marshal unmarshal r))
        (allow_source rate l r.source_id))
    where
      go :
          (ip source : Option RateResult)
          → ((or_else (refusal "ip" ip) (refusal "source" source) ≡ none)
              ↔ ((lets_through ip && lets_through source) ≡ true))
            × ((scope : String) (secs : ℕ)
                → or_else (refusal "ip" ip) (refusal "source" source) ≡ some (limited scope secs)
                → 1 ≤ secs)
      go ip source = (ground arith, λ scope secs h. ground arith)

  -- What the documented matrix of secrets and signatures accepts.
  abbrev pub Authentic : Handler → Request → List ℕ → List ℕ → Type 0
  Authentic h r body [] = h.require_signature ≡ false
  Authentic h r body (c ∷ secret) =
      IsSigned hmac (c ∷ secret) (get_header "X-Signature" r.headers) body h.now signature_max_age

  check_secret_sound :
      (h : Handler) (r : Request) (body : List ℕ) (secret : Option (List ℕ))
      → h.now < int64_limit
      → check_secret hmac rate split_host_port marshal unmarshal h r body secret ≡ none
      → (s : List ℕ) × (secret ≡ some s) × Authentic h r body s
  check_secret_sound h r body none early e = cc
  check_secret_sound h r body (some []) early e = ([], refl, ground arith)
  check_secret_sound h r body (some (c ∷ secret)) early e =
      let passed : verify hmac (c ∷ secret) (get_header "X-Signature" r.headers) body h.now
            signature_max_age
          ≡ none =
        ground arith in
      (
        c ∷ secret,
        refl,
        ((verify_iff hmac (c ∷ secret) (get_header "X-Signature" r.headers) body h.now
              signature_max_age early (omega arith)).0
            passed).2,
      )

  -- What stands behind an accepted request.
  pub record Admission (h : Handler) (r : Request) (w w' : World) : Type 0 where
    pub body : List ℕ
    pub secret : List ℕ
    pub read : r.body ≡ some body
    pub bounded : length body ≤ h.max_body_bytes
    pub within_rate : check_rate_limit hmac rate split_host_port marshal unmarshal h r ≡ none
    pub known :
        secret_answer hmac rate split_host_port marshal unmarshal h r.source_id ≡ some secret
    pub authentic : Authentic h r body secret
    pub queued : w'.queue ≡ record (w.queue) {
      incoming_list =
          w.queue.incoming_list
          ++ marshal (new_event hmac rate split_host_port marshal unmarshal h r body) ∷ [];
    }

  ensure_source-queue :
      (h : Handler) (source_id : String) (w : World)
      → (ensure_source hmac rate split_host_port marshal unmarshal h source_id w).queue ≡ w.queue
  ensure_source-queue h source_id w = ground arith

  announce-queue :
      (h : Handler) (source_id : String) (w : World)
      → (announce hmac rate split_host_port marshal unmarshal h source_id w).queue ≡ w.queue
  announce-queue h source_id w = ground arith

  enqueued_queue :
      (h : Handler) (r : Request) (w w' : World) (q : Option RedisQueue) (id : String)
      → enqueued hmac rate split_host_port marshal unmarshal h r w q ≡ (accepted id, w')
      → q ≡ some w'.queue
  enqueued_queue h r w w' none id e = cc
  enqueued_queue h r w w' (some q) id e = ground arith

  check_rate_limit-ne-accepted :
      (h : Handler) (r : Request) (id : String)
      → check_rate_limit hmac rate split_host_port marshal unmarshal h r ≢ some (accepted id)
  unfolding check_rate_limit
  check_rate_limit-ne-accepted h r id = ground arith

  check_secret-ne-accepted :
      (h : Handler) (r : Request) (body : List ℕ) (secret : Option (List ℕ)) (id : String)
      → check_secret hmac rate split_host_port marshal unmarshal h r body secret
        ≢ some (accepted id)
  check_secret-ne-accepted h r body none id = ground arith
  check_secret-ne-accepted h r body (some []) id = ground arith
  check_secret-ne-accepted h r body (some (c ∷ secret)) id = ground arith

  module _ (h : Handler) (r : Request) (w w' : World) (id : String)
      (early : h.now < int64_limit) where
    from_queue :
        (body : List ℕ)
        → after_signature hmac rate split_host_port marshal unmarshal h r body w none
          ≡ (accepted id, w')
        → w'.queue ≡ record (w.queue) {
          incoming_list =
              w.queue.incoming_list
              ++ marshal (new_event hmac rate split_host_port marshal unmarshal h r body) ∷ [];
        }
    from_queue body e =
        let w₁ = ensure_source hmac rate split_host_port marshal unmarshal h r.source_id w in
        let q =
          enqueued_queue h r w₁ w'
            (enqueue marshal unmarshal h.enqueue_fails incoming
              (new_event hmac rate split_host_port marshal unmarshal h r body) w₁.queue)
            id e in
        unfold enqueue in ground (arith, q, ensure_source-queue h r.source_id w)

    from_signature :
        (body : List ℕ) (s : Option Response)
        → r.body ≡ some body
        → length body ≤ h.max_body_bytes
        → check_rate_limit hmac rate split_host_port marshal unmarshal h r ≡ none
        → check_signature hmac rate split_host_port marshal unmarshal h r body ≡ s
        → after_signature hmac rate split_host_port marshal unmarshal h r body w s
          ≡ (accepted id, w')
        → Admission h r w w'
    unfolding check_signature
    from_signature body (some refused) read bounded within c e = absurd (
        check_secret-ne-accepted h r body
          (secret_answer hmac rate split_host_port marshal unmarshal h r.source_id) id
          (c ∙ ap (λ (p : Response × World). some p.0) e))
    from_signature body none read bounded within c e =
        let (secret, known, authentic) =
          check_secret_sound h r body
            (secret_answer hmac rate split_host_port marshal unmarshal h r.source_id) early c in
        record {
          body = body;
          secret = secret;
          read = read;
          bounded = bounded;
          within_rate = within;
          known = known;
          authentic = authentic;
          queued = from_queue body e;
        }

    from_body :
        (b : Option (List ℕ))
        → r.body ≡ b
        → check_rate_limit hmac rate split_host_port marshal unmarshal h r ≡ none
        → after_body hmac rate split_host_port marshal unmarshal h r w
            (read_body hmac rate split_host_port marshal unmarshal h.max_body_bytes b)
          ≡ (accepted id, w')
        → Admission h r w w'
    from_body none read within e = cc (ap (λ (p : Response × World). p.0) e)
    from_body (some body) read within e = elim (Bool-cases (leb (length body) h.max_body_bytes)) [
      | inl fits ↦
          from_signature body (check_signature hmac rate split_host_port marshal unmarshal h r body)
            read (leb→le (length body) h.max_body_bytes fits) within refl (rw fits at e)
      | inr long ↦ cc (ap (λ (p : Response × World). p.0) (rw long at e))
    ]

    from_rate :
        (o : Option Response)
        → check_rate_limit hmac rate split_host_port marshal unmarshal h r ≡ o
        → after_rate hmac rate split_host_port marshal unmarshal h r w o ≡ (accepted id, w')
        → Admission h r w w'
    from_rate none c e = from_body r.body refl c e
    from_rate (some refused) c e =
        absurd (check_rate_limit-ne-accepted h r id (c ∙ ap (λ (p : Response × World). some p.0) e))

  -- Until 2262, a request that is answered by 202 was read whole and within the limit on its size,
  -- let through by the rate limits, and authentic: where its source has a secret, the header signs
  -- this very body, for a time at most five minutes away from now or 2 ^ 63 nanoseconds or more
  -- ahead of it, and where it has none, signatures are not required. Its event, with this body, is at
  -- the end of the incoming list, and no other list has changed.
  pub accepted-Admission :
      (h : Handler) (r : Request) (w w' : World) (id : String)
      → h.now < int64_limit
      → handle_webhook hmac rate split_host_port marshal unmarshal h r w ≡ (accepted id, w')
      → Admission h r w w'
  unfolding handle_webhook
  accepted-Admission h r w w' id early e = elim (Bool-cases (str_eq r.source_id "")) [
    | inl no_source ↦ cc (ap (λ (p : Response × World). p.0) (rw no_source at e))
    | inr source ↦
        from_rate h r w w' id early
          (check_rate_limit hmac rate split_host_port marshal unmarshal h r) refl (rw source at e)
  ]

  -- A request that is not answered by 202 leaves the queues, the published events and the count of
  -- throughput as they were, and the sources too, but that its own may have been added at the end.
  pub refused_keeps :
      (h : Handler) (r : Request) (w : World)
      → let (answer, w') = handle_webhook hmac rate split_host_port marshal unmarshal h r w in
        answer ≢ accepted h.new_id
        → (w'.queue ≡ w.queue)
          × (w'.published ≡ w.published)
          × (w'.throughput ≡ w.throughput)
          × ((w'.sources ≡ w.sources) ⊎ (w'.sources ≡ w.sources ++ r.source_id ∷ []))
  unfolding handle_webhook
  refused_keeps h r w ne = ground arith
