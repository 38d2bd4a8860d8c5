-- ===== src/Bridge/Setup.antt =====
-- cmd/extractor-bridge/main.go: `newExtractor` and `buildExtractorBackend`. The gRPC extractor is a
-- parameter, as are `strings.ToLower` and those of the cloud extractor.
pub mod Calls
use webhook_mind.Prelude.{
  List, Option, String, codes, if◌then◌else◌, inl, inr, none, str_eq, ℕ, ℤ, ◌+◌, ◌<>◌, ◌||◌, ◌⊎◌,
}
use webhook_mind.Config.{ExtractorConfig}
use webhook_mind.Extraction.Docx.{Tokens}
use webhook_mind.Extraction.Backend.{ExtractRequest, Extracted, Extractor}
use webhook_mind.Extraction.Fallback.{as_extractor}
use webhook_mind.Extraction.Cloud.{Log}
use webhook_mind.Extraction.CloudExtractor.{Answers, CloudExtractor, cloud_extract}
use webhook_mind.Extraction.Anthropic.{AnthropicRequest, AnthropicResponse}
use webhook_mind.Extraction.Openai.{OpenaiRequest, OpenaiResponse}
use webhook_mind.Extraction.CloudExtractor.Providers.{CloudExtractorOptions, new_cloud_extractor}

-- What the backends change: the calls to providers, and how many extractions there were. What the
-- n-th meets is given.
pub record ExtractWorld : Type 0 where
  pub answers : ℕ → Answers
  pub log : Log
  pub extractions : ℕ

-- The options that the settings give.
abbrev pub options_of : ExtractorConfig → CloudExtractorOptions
options_of cfg = record {
  anthropic_api_key = codes cfg.anthropic_api_key;
  anthropic_model = codes cfg.anthropic_model;
  openai_api_key = codes cfg.openai_api_key;
  openai_model = codes cfg.openai_model;
  default_provider = cfg.cloud_provider;
}

module _ (parse_time : List ℕ → Option ℕ)
    (open_zip : List ℕ → List (String × (Tokens ⊎ String)) ⊎ String) (base64 : List ℕ → List ℕ)
    (system_prompt user_instruction : List ℕ)
    (marshal_anthropic : AnthropicRequest → List ℕ ⊎ String)
    (unmarshal_anthropic : List ℕ → AnthropicResponse ⊎ String)
    (marshal_openai : OpenaiRequest → List ℕ ⊎ String)
    (unmarshal_openai : List ℕ → OpenaiResponse ⊎ String) (quote to_lower : String → String)
    (new_local_extractor : String → ℤ → Extractor ExtractWorld ⊎ String) where
  abbrev pub cloud_step : CloudExtractor → ExtractRequest → ExtractWorld → Extracted × ExtractWorld
  cloud_step c req w =
      let (answer, l) =
        cloud_extract parse_time quote open_zip c (w.answers w.extractions) req w.log in
      (answer, record w { log = l; extractions = w.extractions + 1 })

  -- The cloud extractor as an extractor; `Close` does nothing.
  abbrev pub as_backend : CloudExtractor ⊎ String → Extractor ExtractWorld ⊎ String
  as_backend (inl c) = inl (record { extract = cloud_step c; close = λ w. (none, w) })
  as_backend (inr e) = inr e

  -- `buildExtractorBackend`
  unfoldable pub build_extractor_backend :
      String → ExtractorConfig → Extractor ExtractWorld ⊎ String
  unfolding new_cloud_extractor
  build_extractor_backend kind cfg =
      if str_eq (to_lower kind) "cloud"
      then as_backend (
          new_cloud_extractor base64 system_prompt user_instruction marshal_anthropic
            unmarshal_anthropic marshal_openai unmarshal_openai quote (options_of cfg))
      else if str_eq (to_lower kind) "local" || str_eq (to_lower kind) ""
      then new_local_extractor cfg.grpc_addr cfg.grpc_timeout_seconds
      else inr ("unknown extractor backend " <> quote kind <> " (expected 'local' or 'cloud')")

  -- A fallback that cannot be built is left out.
  abbrev pub with_fallback :
      Extractor ExtractWorld → Extractor ExtractWorld ⊎ String → Extractor ExtractWorld
  with_fallback primary (inr e) = primary
  with_fallback primary (inl fallback) =
      as_extractor (record { primary = primary; fallback = fallback })

  abbrev pub choose_fallback :
      ExtractorConfig → String → Extractor ExtractWorld → Extractor ExtractWorld
  choose_fallback cfg kind primary =
      if str_eq kind "" || str_eq kind "none"
      then primary
      else if str_eq kind (to_lower cfg.backend)
      then primary
      else with_fallback primary (build_extractor_backend kind cfg)

  abbrev pub after_primary :
      ExtractorConfig → Extractor ExtractWorld ⊎ String → Extractor ExtractWorld ⊎ String
  after_primary cfg (inr e) = inr e
  after_primary cfg (inl primary) = inl (choose_fallback cfg (to_lower cfg.fallback) primary)

  -- `newExtractor`
  unfoldable pub new_extractor : ExtractorConfig → Extractor ExtractWorld ⊎ String
  unfolding build_extractor_backend
  new_extractor cfg = after_primary cfg (build_extractor_backend cfg.backend cfg)
