-- ===== src/Extraction/Cloud.antt =====
-- internal/extraction/provider.go and cloud.go: `CloudExtractor` with its retries. Providers are
-- records of operations; `http.ParseTime` and `strconv.Quote` are parameters, as is what the network
-- answers.
pub mod Calls
use webhook_mind.Prelude.{
  Bool, List, Option, String, [], false, if◌then◌else◌, inl, inr, is_empty, leb, ltb, none, not,
  pos, some, suc, trim_space, true, zero, ℕ, ℤ, ◌%◌, ◌&&◌, ◌*◌, ◌++◌, ◌+◌, ◌-◌, ◌<>◌, ◌==◌, ◌^◌,
  ◌||◌, ◌∷◌, ◌⊎◌,
}
use webhook_mind.Ingestion.Signature.{int64_limit, parse_int, second}
use webhook_mind.Json.Sprint.{decimal}

-- `LLMProvider`, less the headers that `SetAuthHeaders` adds: the key is kept with a
-- call. `build_request` gives the endpoint and the body, or an error.
pub record LlmProvider : Type 0 where
  pub name : String
  pub default_model : List ℕ
  pub build_request : List ℕ → String → List ℕ → String → String × List ℕ ⊎ String
  pub parse_response : List ℕ → List ℕ ⊎ String

-- What a call of a provider comes to.
pub data Reply : Type 0 where
  unbuilt : String → Reply
  context_ended : String → Reply
  unreachable : String → Reply
  unread : String → Reply
  -- the status code, the header Retry-After, and the body
  replied : ℕ → List ℕ → List ℕ → Reply

-- `callClassification` with the error; times are durations in nanoseconds.
pub record Failure : Type 0 where
  pub retryable : Bool
  pub retry_after : ℕ
  pub message : String

-- A call that goes out, with its key.
pub record Call : Type 0 where
  pub provider : String
  pub api_key : List ℕ
  pub endpoint : String
  pub body : List ℕ

-- Calls made and waits between them.
pub record Log : Type 0 where
  pub calls : List Call
  pub waits : List ℕ

-- `isRetryableStatus`
unfoldable pub is_retryable_status : ℕ → Bool
is_retryable_status code = if code == 429 then true else leb 500 code && ltb code 600

-- `time.Duration(secs) * time.Second` in int64; 0 stands for what is not positive.
abbrev pub seconds : ℕ → ℕ
seconds n = let d = (n * second) % 18446744073709551616 in if ltb d int64_limit then d else 0

abbrev pub positive : Option ℤ → Option ℕ
positive (some (pos (suc n))) = some (suc n)
positive _ = none

module _ (parse_time : List ℕ → Option ℕ) (now : ℕ) where
  -- The time left until an HTTP date, with the saturation of `time.Until`.
  abbrev pub until_date : Option ℕ → ℕ
  until_date none = 0
  until_date (some t) = if ltb (t - now) int64_limit then t - now else int64_limit - 1

  abbrev pub retry_date : List ℕ → Option ℕ → ℕ
  retry_date h (some n) = seconds n
  retry_date h none = until_date (parse_time h)

  -- `parseRetryAfter`; a number of seconds that overflows to a negative duration acts as 0 does.
  unfoldable pub parse_retry_after : List ℕ → ℕ
  unfolding trim_space parse_int
  parse_retry_after header =
      let h = trim_space header in if is_empty h then 0 else retry_date h (positive (parse_int h))

  abbrev pub parsed_text : List ℕ ⊎ String → List ℕ ⊎ Failure
  parsed_text (inl text) = inl text
  parsed_text (inr e) = inr (record { retryable = false; retry_after = 0; message = e })

  -- `callProviderOnce`, less the body that the message of an error quotes.
  unfoldable pub call_provider_once : LlmProvider → Reply → List ℕ ⊎ Failure
  unfolding is_retryable_status parse_retry_after decimal
  call_provider_once p (unbuilt e) =
      inr (record { retryable = false; retry_after = 0; message = "build http request: " <> e })
  call_provider_once p (context_ended e) =
      inr (record { retryable = false; retry_after = 0; message = p.name <> " api call: " <> e })
  call_provider_once p (unreachable e) =
      inr (record { retryable = true; retry_after = 0; message = p.name <> " api call: " <> e })
  call_provider_once p (unread e) =
      inr (record { retryable = true; retry_after = 0; message = "read response: " <> e })
  call_provider_once p (replied code retry_after body) =
      if leb 400 code
      then inr (record {
        retryable = is_retryable_status code;
        retry_after = if code == 429 then parse_retry_after retry_after else 0;
        message = p.name <> " api returned " <> decimal code;
      })
      else parsed_text (p.parse_response body)

  -- The wait before the next attempt.
  unfoldable pub backoff : ℕ → Failure → ℕ
  backoff attempt f = if f.retry_after == 0 then 2 ^ (attempt - 1) * second else f.retry_after

  module _ (p : LlmProvider) (call : Call) (reply : ℕ → Reply) (context_done : ℕ → Bool) where
    abbrev pub send : Reply → Log → Log
    send (unbuilt e) l = l
    send _ l = record l { calls = l.calls ++ call ∷ [] }

    -- The end of a round: return, or wait and go on. `left` rounds follow.
    abbrev pub after_call :
        (Log → (List ℕ ⊎ String) × Log) → ℕ → ℕ → Log → List ℕ ⊎ Failure → (List ℕ ⊎ String) × Log
    after_call next left attempt l (inl text) = (inl text, l)
    after_call next left attempt l (inr f) =
        if not f.retryable || (left == 0)
        then (inr f.message, l)
        else if context_done attempt
        then (inr "context ended", l)
        else next (record l { waits = l.waits ++ backoff attempt f ∷ [] })

    -- The loop of `callProvider`; with no round left it does not come to `lastErr`.
    unfoldable pub call_from : ℕ → ℕ → Log → (List ℕ ⊎ String) × Log
    unfolding call_provider_once backoff
    call_from zero attempt l = (inr "", l)
    call_from (suc left) attempt l =
        after_call (call_from left (attempt + 1)) left attempt (send (reply attempt) l)
          (call_provider_once p (reply attempt))

    -- `callProvider`: three attempts.
    unfoldable pub call_provider : Log → (List ℕ ⊎ String) × Log
    unfolding call_from
    call_provider l = call_from 3 1 l
