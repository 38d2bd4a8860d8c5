-- ===== src/Tests/Extraction.antt =====
-- Runs of the orchestrator and of the extraction backends.
use webhook_mind.Prelude.{
  Bool, List, Option, String, [], arith, codes, false, if◌then◌else◌, inl, inr, is_empty, none, pos,
  refl, some, str_eq, suc, zero, ℕ, ◌++◌, ◌+◌, ◌<◌, ◌∷◌, ◌≡◌, ◌≤◌,
}
use webhook_mind.Json.{Fields, end, member, str}
use webhook_mind.Models.{WebhookEvent}
use webhook_mind.Queue.{RedisQueue}
use webhook_mind.Orchestrator.{scale, work}
use webhook_mind.Orchestrator.Steps.{HasFile, scale_bounds, work_lem}
use webhook_mind.Extraction.Backend.{ExtractRequest, Extracted, Extractor, errored, responded}
use webhook_mind.Extraction.Fallback.{FallbackExtractor}
use webhook_mind.Extraction.Cloud.{
  Call, LlmProvider, Log, Reply, call_provider, call_provider_once, parse_retry_after, replied,
}
use webhook_mind.Extraction.Cloud.Calls.{
  call_provider_bounds, call_provider_verdict, copies, to_answer,
}
use webhook_mind.Extraction.CloudExtractor.{Answers, CloudExtractor, cloud_extract, no_answer}
use webhook_mind.Extraction.CloudExtractor.Keys.{IsOwn, cloud_extract-calls}

-- A provider that sends the file's bytes and answers by the body it gets.
abbrev echo : LlmProvider
echo = record {
  name = "openai";
  default_model = codes "m";
  build_request = λ model file_type bytes media_type. inl ("https://llm", bytes);
  parse_response = λ body. inl body;
}

abbrev pub no_date : List ℕ → Option ℕ
no_date header = none

abbrev two_providers : CloudExtractor
two_providers = record {
  providers = ("anthropic", echo) ∷ ("openai", echo) ∷ [];
  api_keys = ("anthropic", codes "ours") ∷ ("openai", []) ∷ [];
  default_provider = "anthropic";
}

abbrev pub own_key_request : ExtractRequest
own_key_request = record {
  event_id = "e1";
  source_id = "s1";
  file_path = "s1/f";
  file_type = "csv";
  presigned_url = "http://minio/f";
  file_bytes = codes "a,b";
  api_key = codes "mine";
  provider = "openai";
  model = [];
}

abbrev one_call : Call
one_call = record {
  provider = "openai";
  api_key = codes "mine";
  endpoint = "https://llm";
  body = codes "a,b";
}

-- 503, then 429 with a wait of seven seconds, then an answer.
abbrev slow_start : ℕ → Reply
slow_start (suc zero) = replied 503 [] []
slow_start (suc (suc zero)) = replied 429 (codes "7") []
slow_start _ = replied 200 [] (codes "{}")

abbrev never_done : ℕ → Bool
never_done attempt = false

abbrev pub empty_log : Log
empty_log = record { calls = []; waits = [] }

retry_after_tests :
    (parse_retry_after no_date 0 (codes " 7 ") ≡ 7000000000)
    × (parse_retry_after no_date 0 (codes "-7") ≡ 0)
    × (parse_retry_after no_date 0 (codes "9223372037") ≡ 0)
unfolding parse_retry_after
retry_after_tests = (refl, refl, refl)

call_provider_run : call_provider no_date 0 echo one_call slow_start never_done empty_log ≡ (
  inl (codes "{}"),
  record { calls = one_call ∷ one_call ∷ one_call ∷ []; waits = 1000000000 ∷ 7000000000 ∷ [] },
)
unfolding call_provider
call_provider_run = refl

abbrev pub answers : Answers
answers = record {
  now = 0;
  elapsed = 5;
  download = no_answer "refused";
  reply = slow_start;
  context_done = never_done;
}

call_provider_verdict_example :
    (call_provider no_date 0 echo one_call slow_start never_done empty_log).0
    ≡ to_answer (call_provider_once no_date 0 echo (slow_start (2 + 1)))
unfolding call_provider
call_provider_verdict_example =
    call_provider_verdict no_date 0 echo one_call slow_start never_done 2 empty_log (λ j. refl)
      (omega arith)
      (elim [ zero ↦ λ h. refl | suc zero ↦ λ h. refl | suc (suc j) ↦ λ h. absurd (omega arith) ])
      (inr refl)

call_provider_few :
    (m : ℕ) × (m ≤ 3)
    × ((call_provider no_date 0 echo one_call slow_start never_done empty_log).1.calls
        ≡ empty_log.calls ++ copies m one_call)
call_provider_few = call_provider_bounds no_date 0 echo one_call slow_start never_done empty_log

cloud_extract-calls_example :
    (m : ℕ) × (call : Call) × (m ≤ 3)
    × ((cloud_extract no_date
          (λ s. s)
          (λ b. inl [])
          two_providers
          answers
          own_key_request
          empty_log).1.calls
        ≡ empty_log.calls ++ copies m call)
    × (1 ≤ m
        → IsOwn two_providers own_key_request call
          × (str_eq own_key_request.file_type "audio" ≡ false))
cloud_extract-calls_example =
    cloud_extract-calls no_date (λ s. s) (λ b. inl []) two_providers answers own_key_request
      empty_log

-- Extractors that count their runs.
abbrev counting : Extracted → Extractor ℕ
counting answer = record { extract = λ req n. (answer, suc n); close = λ n. (none, n) }

abbrev cloud_then_local : FallbackExtractor ℕ
cloud_then_local = record {
  primary = counting (errored "down");
  fallback = counting (responded none);
}

abbrev with_file : WebhookEvent
with_file = record {
  id = "e1";
  source_id = "s1";
  received_at = 0;
  raw_body = codes "f";
  headers = [];
  file_url = "";
  file_store_path = "";
  extracted_data = none;
  extraction_ms = 0;
  api_key_override = [];
  provider_override = "";
  model_override = [];
}

-- Stand-ins for JSON: an event is written as its body, and the body "f" has an address.
abbrev to_raw : WebhookEvent → List ℕ
to_raw e = e.raw_body

abbrev of_raw : List ℕ → Option WebhookEvent
of_raw raw = some (record with_file { raw_body = raw })

abbrev body_of : List ℕ → Option Fields
body_of body =
    if is_empty body then none else some (member "file_url" (str "http://files/f.pdf") end)

abbrev one_waiting : RedisQueue
one_waiting = record {
  incoming_list = codes "f" ∷ [];
  delivery_list = [];
  extraction_list = [];
  dlq_list = [];
}

work_lem_example :
    ((url : String)
      → HasFile (body_of with_file.raw_body) url
      → work to_raw of_raw body_of false false one_waiting ≡ record one_waiting {
        incoming_list = [];
        extraction_list =
            one_waiting.extraction_list ++ to_raw (record with_file { file_url = url }) ∷ [];
      })
    × (((url : String) → ¬ HasFile (body_of with_file.raw_body) url)
        → work to_raw of_raw body_of false false one_waiting ≡ record one_waiting {
          incoming_list = [];
          delivery_list = one_waiting.delivery_list ++ to_raw with_file ∷ [];
        })
work_lem_example = work_lem to_raw of_raw body_of one_waiting (codes "f") [] with_file refl refl

scale_run :
    scale (pos 100) (pos 25) (some 500 ∷ none ∷ some 7 ∷ some 101 ∷ some 999 ∷ []) (pos 4) ≡ pos 25
unfolding scale
scale_run = refl

-- A limit that does not fit in int32 reads as a negative one, and no worker is started.
scale_wraps : scale (pos 100) (pos 2147483648) (some 500 ∷ some 999 ∷ []) (pos 4) ≡ pos 4
unfolding scale
scale_wraps = refl

scale_bounds_example :
    ((n : ℕ) × (scale (pos 100) (pos 25) (some 500 ∷ some 101 ∷ []) (pos 4) ≡ pos n)
      × (n ≤ 25)
      × (4 ≤ n))
    × ((depth : ℕ)
        → 100 < depth
        → 4 < 25
        → (n : ℕ) × (scale (pos 100) (pos 25) (some depth ∷ some 500 ∷ some 101 ∷ []) (pos 4)
            ≡ pos n)
          × (4 < n))
scale_bounds_example = scale_bounds 100 25 4 (some 500 ∷ some 101 ∷ []) (omega arith) (omega arith)
