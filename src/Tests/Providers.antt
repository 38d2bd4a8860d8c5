-- ===== src/Tests/Providers.antt =====
-- A call to a provider with the server's key.
use webhook_mind.Prelude.{
  List, String, [], codes, inl, inr, map, none, pos, refl, ℕ, ℤ, ◌∷◌, ◌≡◌, ◌⊎◌,
}
use webhook_mind.Config.{ExtractorConfig}
use webhook_mind.Bridge.Setup.{ExtractWorld, cloud_step, new_extractor}
use webhook_mind.Bridge.Setup.Calls.{SendsProperly, new_extractor-SendsProperly}
use webhook_mind.Extraction.Docx.{Tokens}
use webhook_mind.Extraction.Backend.{ExtractRequest, Extractor}
use webhook_mind.Extraction.Cloud.{Call, seconds}
use webhook_mind.Extraction.Anthropic.{
  AnthropicRequest, AnthropicResponse, parse_anthropic_response,
}
use webhook_mind.Extraction.Openai.{
  OpenaiRequest, OpenaiResponse, new_openai_provider, openai_endpoint,
}
use webhook_mind.Extraction.CloudExtractor.{CloudExtractor, cloud_extract}
use webhook_mind.Extraction.CloudExtractor.Providers.{
  CloudExtractorOptions, extractor_of, new_cloud_extractor,
}
use webhook_mind.Tests.Extraction.{answers, empty_log, no_date, own_key_request}

-- Stand-ins: a request is written as its model, an answer is one block, and base64 changes nothing.
abbrev same : List ℕ → List ℕ
same bytes = bytes

abbrev write_anthropic : AnthropicRequest → List ℕ ⊎ String
write_anthropic r = inl r.model

abbrev read_anthropic : List ℕ → AnthropicResponse ⊎ String
read_anthropic body =
    inl (record { content = ("thinking", codes "?") ∷ ("text", body) ∷ []; error = none })

abbrev write_openai : OpenaiRequest → List ℕ ⊎ String
write_openai r = inl r.model

abbrev read_openai : List ℕ → OpenaiResponse ⊎ String
read_openai body =
    inl (record { output_text = []; output = (("text", body) ∷ []) ∷ []; error = none })

abbrev as_is : String → String
as_is s = s

abbrev no_files : List ℕ → List (String × (Tokens ⊎ String)) ⊎ String
no_files bytes = inl []

abbrev options : CloudExtractorOptions
options = record {
  anthropic_api_key = codes "a-key";
  anthropic_model = [];
  openai_api_key = codes "o-key";
  openai_model = [];
  default_provider = "openai";
}

abbrev default_request : ExtractRequest
default_request = record own_key_request { api_key = []; provider = "" }

abbrev openai_first : CloudExtractor
openai_first =
    extractor_of same [] [] write_anthropic read_anthropic write_openai read_openai as_is options
      "openai"

built_test :
    new_cloud_extractor same [] [] write_anthropic read_anthropic write_openai read_openai as_is
      options
    ≡ inl openai_first
unfolding new_cloud_extractor
built_test = refl

three_calls :
    let l =
      (cloud_extract no_date as_is no_files openai_first answers default_request empty_log).1 in
    (map (λ (c : Call). c.endpoint) l.calls
      ≡ openai_endpoint ∷ openai_endpoint ∷ openai_endpoint ∷ [])
    × (map (λ (c : Call). c.api_key) l.calls ≡ codes "o-key" ∷ codes "o-key" ∷ codes "o-key" ∷ [])
unfolding cloud_extract new_openai_provider
three_calls = (refl, refl)

text_test :
    parse_anthropic_response same [] [] write_anthropic read_anthropic (codes "{}")
    ≡ inl (codes "{}")
unfolding parse_anthropic_response
text_test = refl

abbrev no_local : String → ℤ → Extractor ExtractWorld ⊎ String
no_local address seconds = inr "no connection"

abbrev cloud_settings : ExtractorConfig
cloud_settings = record {
  backend = "cloud";
  fallback = "none";
  grpc_addr = "";
  grpc_timeout_seconds = pos 120;
  anthropic_api_key = "a-key";
  anthropic_model = "";
  openai_api_key = "o-key";
  openai_model = "";
  cloud_provider = "openai";
  cloud_timeout_seconds = pos 60;
}

abbrev world : ExtractWorld
world = record { answers = λ n. answers; log = empty_log; extractions = 0 }

abbrev cloud_only : Extractor ExtractWorld
cloud_only = record {
  extract =
      cloud_step no_date no_files same [] [] write_anthropic read_anthropic write_openai read_openai
        as_is as_is no_local openai_first;
  close = λ w. (none, w);
}

built_from_settings :
    new_extractor no_date no_files same [] [] write_anthropic read_anthropic write_openai
      read_openai as_is as_is no_local cloud_settings
    ≡ inl cloud_only
unfolding new_extractor
built_from_settings = refl

-- The local backend does not start.
local_fails :
    new_extractor no_date no_files same [] [] write_anthropic read_anthropic write_openai
      read_openai as_is as_is no_local
      (record cloud_settings { backend = "local" })
    ≡ inr "no connection"
unfolding new_extractor
local_fails = refl

new_extractor-SendsProperly_example :
    SendsProperly no_date no_files same [] [] write_anthropic read_anthropic write_openai
      read_openai as_is as_is no_local cloud_settings cloud_only default_request world
      (cloud_only.extract default_request world).1
new_extractor-SendsProperly_example =
    new_extractor-SendsProperly no_date no_files same [] [] write_anthropic read_anthropic
      write_openai read_openai as_is as_is no_local cloud_settings cloud_only refl refl
      built_from_settings default_request world
