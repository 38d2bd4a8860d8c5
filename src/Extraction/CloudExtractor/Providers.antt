-- ===== src/Extraction/CloudExtractor/Providers.antt =====
-- internal/extraction/cloud.go: `NewCloudExtractor`.
use webhook_mind.Prelude.{
  List, String, [], if◌then◌else◌, inl, inr, str_eq, ℕ, ◌<>◌, ◌||◌, ◌∷◌, ◌⊎◌,
}
use webhook_mind.Extraction.Cloud.{LlmProvider}
use webhook_mind.Extraction.Anthropic.{AnthropicRequest, AnthropicResponse, new_anthropic_provider}
use webhook_mind.Extraction.Openai.{OpenaiRequest, OpenaiResponse, new_openai_provider}
use webhook_mind.Extraction.CloudExtractor.{CloudExtractor}

-- `CloudExtractorOptions`, less the timeout of the HTTP client and the logger.
pub record CloudExtractorOptions : Type 0 where
  pub anthropic_api_key : List ℕ
  pub anthropic_model : List ℕ
  pub openai_api_key : List ℕ
  pub openai_model : List ℕ
  pub default_provider : String

module _ (base64 : List ℕ → List ℕ) (system_prompt user_instruction : List ℕ)
    (marshal_anthropic : AnthropicRequest → List ℕ ⊎ String)
    (unmarshal_anthropic : List ℕ → AnthropicResponse ⊎ String)
    (marshal_openai : OpenaiRequest → List ℕ ⊎ String)
    (unmarshal_openai : List ℕ → OpenaiResponse ⊎ String) (quote : String → String) where
  abbrev pub anthropic : List ℕ → LlmProvider
  anthropic model =
      new_anthropic_provider base64 system_prompt user_instruction marshal_anthropic
        unmarshal_anthropic model

  abbrev pub openai : List ℕ → LlmProvider
  openai model =
      new_openai_provider base64 system_prompt user_instruction marshal_openai unmarshal_openai
        model

  abbrev pub extractor_of : CloudExtractorOptions → String → CloudExtractor
  extractor_of opts name = record {
    providers =
        ("anthropic", anthropic opts.anthropic_model) ∷ ("openai", openai opts.openai_model) ∷ [];
    api_keys = ("anthropic", opts.anthropic_api_key) ∷ ("openai", opts.openai_api_key) ∷ [];
    default_provider = name;
  }

  -- `NewCloudExtractor`
  unfoldable pub new_cloud_extractor : CloudExtractorOptions → CloudExtractor ⊎ String
  unfolding new_anthropic_provider new_openai_provider
  new_cloud_extractor opts =
      if str_eq opts.default_provider "" || str_eq opts.default_provider "anthropic"
      then inl (extractor_of opts "anthropic")
      else if str_eq opts.default_provider "openai"
      then inl (extractor_of opts "openai")
      else inr (
          "invalid default provider "
          <> quote opts.default_provider
          <> " (expected 'anthropic' or 'openai')")
