-- ===== src/Ingestion/Handler.antt =====
-- internal/ingestion/handler.go: the handler of POST /webhook/{source_id}, with what it does to the
-- queue, the table of sources and the event stream. HMAC, the rate limiter's script, the JSON of
-- an event and `net.SplitHostPort` are parameters.
pub mod Accepted
use webhook_mind.Prelude.{
  Bool, List, Option, String, [], any, bytes_equal, codes, if◌then◌else◌, index_byte, is_empty, leb,
  length, lookup, ltb, map, none, not, some, str_eq, suc, take, trim_space, zero, ℕ, ◌&&◌, ◌*◌,
  ◌++◌, ◌+◌, ◌/◌, ◌||◌, ◌∷◌,
}
use webhook_mind.Models.{WebhookEvent}
use webhook_mind.Queue.{RedisQueue, enqueue, incoming}
use webhook_mind.Ingestion.Signature.{second, verify}
use webhook_mind.Ingestion.RateLimit.{Limiter, RateAnswer, RateResult, allow_ip, allow_source}

-- Header values as `net/http` keeps them: by canonical key, at least one for each key.
pub record Values : Type 0 where
  pub first : List ℕ
  pub others : List (List ℕ)

-- `body` is what the connection delivers; `none` is a read error.
pub record Request : Type 0 where
  pub source_id : String
  pub headers : List (String × Values)
  pub remote_addr : List ℕ
  pub body : Option (List ℕ)

-- A record published to Redis: its type, event and source.
pub record Publication : Type 0 where
  pub type : String
  pub event_id : String
  pub source_id : String

-- The answer: an error, 429 with its scope and Retry-After, or 202 with the event's identifier.
pub data Response : Type 0 where
  error : ℕ → Response
  limited : String → ℕ → Response
  accepted : String → Response

pub record World : Type 0 where
  pub queue : RedisQueue
  pub sources : List String
  pub published : List Publication
  pub throughput : ℕ

-- The handler's fields and what its environment answers. `secret_of` is `none` if there is no
-- store, and a lookup's error is its `none`; a source with no secret has the empty one.
pub record Handler : Type 0 where
  pub limiter : Option Limiter
  pub secret_of : Option (String → Option (List ℕ))
  pub has_pub : Bool
  pub max_body_bytes : ℕ
  pub require_signature : Bool
  pub now : ℕ
  pub new_id : String
  pub ensure_fails : Bool
  pub enqueue_fails : Bool

-- `signatureMaxAge`: five minutes.
abbrev pub signature_max_age : ℕ
signature_max_age = 300 * second

-- `r.Header.Get(key)` for a canonical key.
unfoldable pub get_header : String → List (String × Values) → List ℕ
unfolding lookup
get_header key headers = elim (lookup key headers) [ none ↦ [] | some v ↦ v.first ]

-- `strings.EqualFold` on ASCII, which the keys of a header are.
unfoldable pub lower : ℕ → ℕ
lower c = if leb b'A' c && leb c b'Z' then c + 32 else c

unfoldable pub equal_fold : String → String → Bool
unfolding lower bytes_equal
equal_fold s t = bytes_equal (map lower (codes s)) (map lower (codes t))

unfoldable pub is_byok : String → Bool
unfolding equal_fold
is_byok key =
    equal_fold key "X-Anthropic-Key"
    || equal_fold key "X-OpenAI-Key"
    || equal_fold key "X-LLM-Model"

-- The loop that captures the headers.
unfoldable pub capture_headers : List (String × Values) → List (String × List ℕ)
unfolding is_byok
capture_headers [] = []
capture_headers ((key, v) ∷ headers) =
    if is_byok key then capture_headers headers else (key, v.first) ∷ capture_headers headers

-- The key of the LLM provider and the provider: OpenAI's wins.
unfoldable pub overrides : List (String × Values) → List ℕ × String
unfolding get_header
overrides headers =
    let anthropic_key = get_header "X-Anthropic-Key" headers in
    let openai_key = get_header "X-Openai-Key" headers in
    if not (is_empty openai_key)
    then (openai_key, "openai")
    else if not (is_empty anthropic_key)
    then (anthropic_key, "anthropic")
    else ([], "")

-- Before a comma that is not the first byte, or all of it.
abbrev pub first_hop : List ℕ → Option ℕ → List ℕ
first_hop xff none = xff
first_hop xff (some zero) = xff
first_hop xff (some (suc i)) = take (suc i) xff

-- `writeRateLimited`: whole seconds, at least one.
unfoldable pub retry_seconds : ℕ → ℕ
retry_seconds retry_after = let secs = retry_after / second in if ltb secs 1 then 1 else secs

abbrev pub refusal : String → Option RateResult → Option Response
refusal scope none = none
refusal scope (some r) =
    if r.allowed then none else some (limited scope (retry_seconds r.retry_after))

abbrev pub or_else : Option Response → Option Response → Option Response
or_else none later = later
or_else (some r) later = some r

abbrev pub ensured : String → List String → List String
ensured source_id sources =
    if any (λ s. str_eq s source_id) sources then sources else sources ++ source_id ∷ []

module _ (hmac : List ℕ → List ℕ → List ℕ) (rate : List ℕ → ℕ → Option RateAnswer)
    (split_host_port : List ℕ → Option (List ℕ)) (marshal : WebhookEvent → List ℕ)
    (unmarshal : List ℕ → Option WebhookEvent) where
  -- `clientIP`
  unfoldable pub client_ip : Request → List ℕ
  unfolding get_header trim_space index_byte
  client_ip r =
      let xff = get_header "X-Forwarded-For" r.headers in
      let xri = get_header "X-Real-Ip" r.headers in
      let host : List ℕ = elim (split_host_port r.remote_addr) [
        | none ↦ r.remote_addr
        | some h ↦ h
      ] in
      if not (is_empty xff)
      then trim_space (first_hop xff (index_byte xff b','))
      else if not (is_empty xri)
      then trim_space xri
      else host

  -- `checkRateLimit`: `none` lets the request through, also where the limiter fails.
  unfoldable pub check_rate_limit : Handler → Request → Option Response
  unfolding client_ip allow_ip allow_source retry_seconds
  check_rate_limit h r = elim h.limiter [
    | none ↦ none
    | some l ↦
        or_else (refusal "ip" (allow_ip rate l (client_ip r)))
          (refusal "source" (allow_source rate l r.source_id))
  ]

  abbrev pub secret_answer : Handler → String → Option (List ℕ)
  secret_answer h source_id = elim h.secret_of [ none ↦ some [] | some find ↦ find source_id ]

  abbrev pub check_secret : Handler → Request → List ℕ → Option (List ℕ) → Option Response
  check_secret h r body none = some (error 500)
  check_secret h r body (some []) = if not h.require_signature then none else some (error 401)
  check_secret h r body (some (c ∷ secret)) =
      elim (verify hmac (c ∷ secret) (get_header "X-Signature" r.headers) body h.now
        signature_max_age) [ none ↦ none | some e ↦ some (error 401) ]

  -- `checkSignature`: `none` lets the request through.
  unfoldable pub check_signature : Handler → Request → List ℕ → Option Response
  unfolding verify get_header
  check_signature h r body = check_secret h r body (secret_answer h r.source_id)

  -- `http.MaxBytesReader` and `io.ReadAll`
  abbrev pub read_body : ℕ → Option (List ℕ) → Option (List ℕ)
  read_body max none = none
  read_body max (some body) = if leb (length body) max then some body else none

  unfoldable pub new_event : Handler → Request → List ℕ → WebhookEvent
  unfolding capture_headers overrides get_header
  new_event h r body = record {
    id = h.new_id;
    source_id = r.source_id;
    received_at = h.now;
    raw_body = body;
    headers = capture_headers r.headers;
    file_url = "";
    file_store_path = "";
    extracted_data = none;
    extraction_ms = 0;
    api_key_override = (overrides r.headers).0;
    provider_override = (overrides r.headers).1;
    model_override = get_header "X-Llm-Model" r.headers;
  }

  -- `EnsureSource`, whose error is only logged.
  abbrev pub ensure_source : Handler → String → World → World
  ensure_source h source_id w = elim h.secret_of [
    | none ↦ w
    | some find ↦ if h.ensure_fails then w else record w { sources = ensured source_id w.sources }
  ]

  abbrev pub announce : Handler → String → World → World
  announce h source_id w =
      if h.has_pub
      then record w {
        published =
            w.published
            ++ record { type = "webhook.received"; event_id = h.new_id; source_id = source_id }
              ∷ [];
        throughput = w.throughput + 1;
      }
      else w

  abbrev pub enqueued : Handler → Request → World → Option RedisQueue → Response × World
  enqueued h r w none = (error 503, w)
  enqueued h r w (some q) = (accepted h.new_id, announce h r.source_id (record w { queue = q }))

  abbrev pub after_signature :
      Handler → Request → List ℕ → World → Option Response → Response × World
  after_signature h r body w (some refused) = (refused, w)
  after_signature h r body w none =
      let w' = ensure_source h r.source_id w in
      enqueued h r w'
        (enqueue marshal unmarshal h.enqueue_fails incoming (new_event h r body) w'.queue)

  abbrev pub after_body : Handler → Request → World → Option (List ℕ) → Response × World
  after_body h r w none = (error 400, w)
  after_body h r w (some body) = after_signature h r body w (check_signature h r body)

  abbrev pub after_rate : Handler → Request → World → Option Response → Response × World
  after_rate h r w (some refused) = (refused, w)
  after_rate h r w none = after_body h r w (read_body h.max_body_bytes r.body)

  -- `handleWebhook`
  unfoldable pub handle_webhook : Handler → Request → World → Response × World
  unfolding check_rate_limit check_signature new_event enqueue
  handle_webhook h r w =
      if str_eq r.source_id "" then (error 400, w) else after_rate h r w (check_rate_limit h r)
