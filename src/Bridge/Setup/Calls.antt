-- ===== src/Bridge/Setup/Calls.antt =====
-- Where the keys of the settings go.
use webhook_mind.Prelude.{
  List, Option, String, arith, inl, inr, refl, subst, ℕ, ℤ, ◌++◌, ◌≡◌, ◌≤◌, ◌⊎◌,
}
use webhook_mind.Config.{ExtractorConfig}
use webhook_mind.Extraction.Docx.{Tokens}
use webhook_mind.Extraction.Backend.{ExtractRequest, Extractor}
use webhook_mind.Extraction.Cloud.{Call}
use webhook_mind.Extraction.Cloud.Calls.{copies}
use webhook_mind.Extraction.CloudExtractor.{CloudExtractor}
use webhook_mind.Extraction.Anthropic.{AnthropicRequest, AnthropicResponse}
use webhook_mind.Extraction.Openai.{OpenaiRequest, OpenaiResponse}
use webhook_mind.Extraction.CloudExtractor.Providers.{new_cloud_extractor}
use webhook_mind.Extraction.CloudExtractor.Endpoints.{Proper, cloud_extract-new_cloud_extractor}
use webhook_mind.Bridge.Setup.{
  ExtractWorld, after_primary, as_backend, build_extractor_backend, new_extractor, options_of,
}

inr_not_inl :
    {m : String} {x : Extractor ExtractWorld}
    → ◌≡◌ {A = Extractor ExtractWorld ⊎ String} (inr m) (inl x)
    → ⊥
inr_not_inl e = ground arith

inl_injective :
    {x y : Extractor ExtractWorld}
    → ◌≡◌ {A = Extractor ExtractWorld ⊎ String} (inl x) (inl y)
    → x ≡ y
inl_injective e = ground arith

module _ (parse_time : List ℕ → Option ℕ)
    (open_zip : List ℕ → List (String × (Tokens ⊎ String)) ⊎ String) (base64 : List ℕ → List ℕ)
    (system_prompt user_instruction : List ℕ)
    (marshal_anthropic : AnthropicRequest → List ℕ ⊎ String)
    (unmarshal_anthropic : List ℕ → AnthropicResponse ⊎ String)
    (marshal_openai : OpenaiRequest → List ℕ ⊎ String)
    (unmarshal_openai : List ℕ → OpenaiResponse ⊎ String) (quote to_lower : String → String)
    (new_local_extractor : String → ℤ → Extractor ExtractWorld ⊎ String) (cfg : ExtractorConfig)
    (x : Extractor ExtractWorld) where
  -- What an extraction sends out.
  abbrev pub SendsProperly : ExtractRequest → ExtractWorld → ExtractWorld → Type 0
  SendsProperly req w w' =
      (m : ℕ) × (call : Call) × (m ≤ 3)
      × (w'.log.calls ≡ w.log.calls ++ copies m call)
      × (1 ≤ m
          → Proper base64 system_prompt user_instruction marshal_anthropic unmarshal_anthropic
              marshal_openai unmarshal_openai quote (options_of cfg) req call)

  after_primary-SendsProperly :
      (made : CloudExtractor ⊎ String)
      → new_cloud_extractor base64 system_prompt user_instruction marshal_anthropic
          unmarshal_anthropic marshal_openai unmarshal_openai quote
          (options_of cfg)
        ≡ made
      → to_lower cfg.fallback ≡ "none"
      → after_primary parse_time open_zip base64 system_prompt user_instruction marshal_anthropic
          unmarshal_anthropic marshal_openai unmarshal_openai quote to_lower new_local_extractor cfg
          (as_backend parse_time open_zip base64 system_prompt user_instruction marshal_anthropic
            unmarshal_anthropic marshal_openai unmarshal_openai quote to_lower new_local_extractor
            made)
        ≡ inl x
      → (req : ExtractRequest) (w : ExtractWorld) → SendsProperly req w (x.extract req w).1
  after_primary-SendsProperly (inr e) h alone built req w = absurd (inr_not_inl built)
  after_primary-SendsProperly (inl c) h alone built req w =
      let same = inl_injective (rw alone at built) in
      subst (λ (y : Extractor ExtractWorld). SendsProperly req w (y.extract req w).1) same
        (cloud_extract-new_cloud_extractor base64 system_prompt user_instruction marshal_anthropic
          unmarshal_anthropic marshal_openai unmarshal_openai quote (options_of cfg) c parse_time
          open_zip (w.answers w.extractions) req w.log h)

  -- An extractor made from settings for the cloud without a fallback: an extraction makes at most
  -- three calls, all alike, each to the endpoint of its own provider; it carries the request's key
  -- or, if it has none, the settings' key for Anthropic to Anthropic and that for OpenAI to OpenAI.
  pub new_extractor-SendsProperly :
      to_lower cfg.backend ≡ "cloud"
      → to_lower cfg.fallback ≡ "none"
      → new_extractor parse_time open_zip base64 system_prompt user_instruction marshal_anthropic
          unmarshal_anthropic marshal_openai unmarshal_openai quote to_lower new_local_extractor cfg
        ≡ inl x
      → (req : ExtractRequest) (w : ExtractWorld) → SendsProperly req w (x.extract req w).1
  unfolding new_extractor build_extractor_backend
  new_extractor-SendsProperly cloud alone built =
      after_primary-SendsProperly _ refl alone (rw cloud at built)
