-- ===== src/Tests/Ingestion.antt =====
-- Runs of signatures and of the webhook handler.
use webhook_mind.Prelude.{
  All, List, Option, String, [], ap, arith, bytes_equal, codes, false, length, lookup, none, refl,
  some, true, ℕ, ◌%◌, ◌&&◌, ◌*◌, ◌++◌, ◌<◌, ◌↔◌, ◌∷◌, ◌≡◌, ◌≤◌, ◌⊎◌,
}
use webhook_mind.Models.{WebhookEvent}
use webhook_mind.Ingestion.Signature.{
  abs, parse_signature_header, second, sign_for_test, signature_mismatch, since, stale_timestamp,
  verify,
}
use webhook_mind.Ingestion.Signature.Signed.{verify-far_future, verify-sign_for_test}
use webhook_mind.Ingestion.RateLimit.{RateAnswer, allow_ip, allow_source}
use webhook_mind.Ingestion.Handler.{
  Handler, Request, Response, Values, World, accepted, capture_headers, check_rate_limit, client_ip,
  handle_webhook, limited, lower,
}
use webhook_mind.Ingestion.Handler.Accepted.{
  Admission, accepted-Admission, check_rate_limit_lem, lets_through, lookup-capture_headers,
  refused_keeps,
}

-- A stand-in for HMAC: two bytes from the lengths.
abbrev mac : List ℕ → List ℕ → List ℕ
mac secret message = (length secret % 256) ∷ (length message % 256) ∷ []

mac_bytes : (secret message : List ℕ) → All (λ b. b < 256) (mac secret message)
mac_bytes secret message = (omega arith, (omega arith, tt))

abbrev key : List ℕ
key = codes "k"

abbrev ping : List ℕ
ping = codes "{}"

abbrev at_100 : List ℕ
at_100 = codes "t=100,v1=0106"

signed_header : sign_for_test mac key ping 100 ≡ at_100
unfolding sign_for_test
signed_header = refl

shuffled_header : parse_signature_header (codes " v2=x, v1=ab ,t=5") ≡ some (codes "5", codes "ab")
unfolding parse_signature_header
shuffled_header = refl

verify_tests :
    (verify mac key at_100 ping (160 * second) (300 * second) ≡ none)
    × (verify mac key at_100 ping (401 * second) (300 * second) ≡ some stale_timestamp)
    × (verify mac key (codes "t=100,v1=0107") ping (160 * second) (300 * second)
        ≡ some signature_mismatch)
unfolding verify
verify_tests = (refl, refl, refl)

verify-sign_for_test_example :
    verify mac key (sign_for_test mac key ping 100) ping (160 * second) (300 * second) ≡ none
unfolding abs since
verify-sign_for_test_example =
    verify-sign_for_test mac mac_bytes (λ secret message. refl) key ping 100 (160 * second)
      (300 * second) refl (omega arith) refl

verify-far_future_example :
    verify mac key (sign_for_test mac key ping 20000000000) ping (160 * second) (300 * second)
    ≡ none
verify-far_future_example =
    verify-far_future mac mac_bytes (λ secret message. refl) key ping 20000000000 (160 * second)
      (300 * second) refl (omega arith) (omega arith)

-- Requests.
abbrev rate_open : List ℕ → ℕ → Option RateAnswer
rate_open k n = some (record { allowed = 1; remaining = 9; retry_after = 0; reset_after = 0 })

abbrev rate_shut : List ℕ → ℕ → Option RateAnswer
rate_shut k n =
    some (record { allowed = 0; remaining = 0; retry_after = 2500000000; reset_after = 0 })

abbrev split_host : List ℕ → Option (List ℕ)
split_host a = none

abbrev to_raw : WebhookEvent → List ℕ
to_raw e = e.raw_body

abbrev of_raw : List ℕ → Option WebhookEvent
of_raw raw = none

abbrev value : List ℕ → Values
value v = record { first = v; others = [] }

abbrev posted : Request
posted = record {
  source_id = "shop";
  headers =
      ("X-Signature", value at_100)
      ∷ ("X-Openai-Key", value (codes "sk"))
      ∷ ("Accept", value [])
      ∷ [];
  remote_addr = codes "10.0.0.1";
  body = some ping;
}

abbrev handler : Handler
handler = record {
  limiter = some (record { per_ip_per_minute = 10; per_source_per_minute = 300 });
  secret_of = some (λ s. some key);
  has_pub = true;
  max_body_bytes = 1024;
  require_signature = true;
  now = 160 * second;
  new_id = "e1";
  ensure_fails = false;
  enqueue_fails = false;
}

abbrev quiet : World
quiet = record {
  queue = record { incoming_list = []; delivery_list = []; extraction_list = []; dlq_list = [] };
  sources = [];
  published = [];
  throughput = 0;
}

abbrev busy : World
busy = record {
  queue = record {
    incoming_list = ping ∷ [];
    delivery_list = [];
    extraction_list = [];
    dlq_list = [];
  };
  sources = "shop" ∷ [];
  published = record { type = "webhook.received"; event_id = "e1"; source_id = "shop" } ∷ [];
  throughput = 1;
}

posted_accepted :
    handle_webhook mac rate_open split_host to_raw of_raw handler posted quiet
    ≡ (accepted "e1", busy)
unfolding handle_webhook
posted_accepted = refl

posted_limited :
    handle_webhook mac rate_shut split_host to_raw of_raw handler posted quiet
    ≡ (limited "ip" 2, quiet)
unfolding handle_webhook
posted_limited = refl

accepted-Admission_example :
    Admission mac rate_open split_host to_raw of_raw handler posted quiet busy
accepted-Admission_example =
    accepted-Admission mac rate_open split_host to_raw of_raw handler posted quiet busy "e1"
      (omega arith) posted_accepted

refused_keeps_example :
    let (answer, w') = handle_webhook mac rate_shut split_host to_raw of_raw handler posted quiet in
    (w'.queue ≡ quiet.queue)
    × (w'.published ≡ quiet.published)
    × (w'.throughput ≡ quiet.throughput)
    × ((w'.sources ≡ quiet.sources) ⊎ (w'.sources ≡ quiet.sources ++ "shop" ∷ []))
refused_keeps_example =
    refused_keeps mac rate_shut split_host to_raw of_raw handler posted quiet
      (λ e. cc (ap (λ (p : Response × World). p.0) posted_limited, e))

lookup-capture_headers_example : lookup "x-openai-key" (capture_headers posted.headers) ≡ none
unfolding lower bytes_equal
lookup-capture_headers_example = lookup-capture_headers "x-openai-key" posted.headers

allowed_source :
    let answer = check_rate_limit mac rate_shut split_host to_raw of_raw handler posted in
    let ip =
      allow_ip rate_shut
        (record { per_ip_per_minute = 10; per_source_per_minute = 300 })
        (client_ip mac rate_shut split_host to_raw of_raw posted) in
    let source =
      allow_source rate_shut
        (record { per_ip_per_minute = 10; per_source_per_minute = 300 })
        "shop" in
    ((answer ≡ none) ↔ ((lets_through ip && lets_through source) ≡ true))
    × ((scope : String) (secs : ℕ) → answer ≡ some (limited scope secs) → 1 ≤ secs)
allowed_source =
    check_rate_limit_lem mac rate_shut split_host to_raw of_raw handler posted
      (record { per_ip_per_minute = 10; per_source_per_minute = 300 }) refl
