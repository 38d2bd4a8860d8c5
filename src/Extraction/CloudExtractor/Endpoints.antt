-- ===== src/Extraction/CloudExtractor/Endpoints.antt =====
-- internal/extraction/cloud.go: where the calls of an extractor go, as it is built.
use webhook_mind.Prelude.{
  Bool-cases, List, Option, String, ap, arith, eq_iff, false, inl, inr, is_empty, lookup, refl,
  some, some_not_none, str_eq, subst, sym, true, ℕ, ◌++◌, ◌||◌, ◌∙◌, ◌≡◌, ◌≤◌, ◌⊎◌,
}
use webhook_mind.Extraction.Docx.{Tokens}
use webhook_mind.Extraction.Backend.{ExtractRequest}
use webhook_mind.Extraction.Cloud.{Call, LlmProvider, Log}
use webhook_mind.Extraction.Cloud.Calls.{copies}
use webhook_mind.Extraction.Anthropic.{
  AnthropicRequest, AnthropicResponse, anthropic_built, anthropic_endpoint, build_anthropic_request,
  new_anthropic_provider,
}
use webhook_mind.Extraction.Openai.{
  OpenaiRequest, OpenaiResponse, build_openai_request, new_openai_provider, openai_built,
  openai_endpoint,
}
use webhook_mind.Extraction.CloudExtractor.{Answers, CloudExtractor, cloud_extract, server_key}
use webhook_mind.Extraction.CloudExtractor.Keys.{BuiltBy, IsOwn, built_by, cloud_extract-calls}
use webhook_mind.Extraction.CloudExtractor.Providers.{
  CloudExtractorOptions, anthropic, extractor_of, new_cloud_extractor, openai,
}

inr_not_inl :
    {m : String} {c : CloudExtractor} → ◌≡◌ {A = CloudExtractor ⊎ String} (inr m) (inl c) → ⊥
inr_not_inl e = ground arith

BuiltBy-some :
    (from : Option LlmProvider) (call : Call)
    → BuiltBy from call
    → (p : LlmProvider) × (model : List ℕ) × (file_type : String) × (bytes : List ℕ)
      × (media_type : String) × (from ≡ some p)
      × (p.build_request model file_type bytes media_type ≡ inl (call.endpoint, call.body))
BuiltBy-some _ _ (built_by p call model file_type bytes media_type made) =
    (p, model, file_type, bytes, media_type, refl, made)

-- A call with its provider's own endpoint.
abbrev pub AtHome : Call → Type 0
AtHome call =
    (call.provider ≡ "anthropic") × (call.endpoint ≡ anthropic_endpoint)
    ⊎ (call.provider ≡ "openai") × (call.endpoint ≡ openai_endpoint)

module _ (base64 : List ℕ → List ℕ) (system_prompt user_instruction : List ℕ)
    (marshal_anthropic : AnthropicRequest → List ℕ ⊎ String)
    (unmarshal_anthropic : List ℕ → AnthropicResponse ⊎ String)
    (marshal_openai : OpenaiRequest → List ℕ ⊎ String)
    (unmarshal_openai : List ℕ → OpenaiResponse ⊎ String) (quote : String → String)
    (opts : CloudExtractorOptions) where
  abbrev built_with : String → CloudExtractor
  built_with name =
      extractor_of base64 system_prompt user_instruction marshal_anthropic unmarshal_anthropic
        marshal_openai unmarshal_openai quote opts name

  anthropic_built-inl :
      (made : List ℕ ⊎ String) (endpoint : String) (body : List ℕ)
      → anthropic_built base64 system_prompt user_instruction marshal_anthropic unmarshal_anthropic
          made
        ≡ inl (endpoint, body)
      → endpoint ≡ anthropic_endpoint
  anthropic_built-inl (inl b) endpoint body e = ground arith
  anthropic_built-inl (inr b) endpoint body e = ground arith

  openai_built-inl :
      (made : List ℕ ⊎ String) (endpoint : String) (body : List ℕ)
      → openai_built base64 system_prompt user_instruction marshal_openai unmarshal_openai made
        ≡ inl (endpoint, body)
      → endpoint ≡ openai_endpoint
  openai_built-inl (inl b) endpoint body e = ground arith
  openai_built-inl (inr b) endpoint body e = ground arith

  BuiltBy-AtHome :
      (name : String) (call : Call)
      → BuiltBy (lookup call.provider (built_with name).providers) call
      → AtHome call
  unfolding lookup new_anthropic_provider build_anthropic_request new_openai_provider
      build_openai_request
  BuiltBy-AtHome name call made =
      let (p, model, file_type, bytes, media_type, from, request) = BuiltBy-some _ call made in
      elim (Bool-cases (str_eq "anthropic" call.provider)) [
        | inl to_anthropic ↦
            let same : some (
                  anthropic base64 system_prompt user_instruction marshal_anthropic
                    unmarshal_anthropic marshal_openai unmarshal_openai quote opts.anthropic_model)
                ≡ some p =
              rw to_anthropic at from in
            let is_p : anthropic base64 system_prompt user_instruction marshal_anthropic
                  unmarshal_anthropic marshal_openai unmarshal_openai quote opts.anthropic_model
                ≡ p =
              ground arith in
            let mine =
              subst
                (λ (q : LlmProvider).
                  q.build_request model file_type bytes media_type ≡ inl (call.endpoint, call.body))
                (sym is_p) request in
            inl (
              sym ((eq_iff "anthropic" call.provider).0 to_anthropic),
              anthropic_built-inl _ call.endpoint call.body mine,
            )
        | inr other ↦ elim (Bool-cases (str_eq "openai" call.provider)) [
          | inl to_openai ↦
              let same : some (
                    openai base64 system_prompt user_instruction marshal_anthropic
                      unmarshal_anthropic marshal_openai unmarshal_openai quote opts.openai_model)
                  ≡ some p =
                rw (other, to_openai) at from in
              let is_p : openai base64 system_prompt user_instruction marshal_anthropic
                    unmarshal_anthropic marshal_openai unmarshal_openai quote opts.openai_model
                  ≡ p =
                ground arith in
              let mine =
                subst
                  (λ (q : LlmProvider).
                    q.build_request model file_type bytes media_type
                    ≡ inl (call.endpoint, call.body))
                  (sym is_p) request in
              inr (
                sym ((eq_iff "openai" call.provider).0 to_openai),
                openai_built-inl _ call.endpoint call.body mine,
              )
          | inr unknown ↦ absurd (some_not_none (sym (rw (other, unknown) at from)))
        ]
      ]

  -- A call that an extraction may make: it goes to the endpoint of its provider, with the request's
  -- key, or the server's key for this provider.
  abbrev pub Proper : ExtractRequest → Call → Type 0
  Proper req call =
      AtHome call
      × (is_empty req.api_key ≡ false → call.api_key ≡ req.api_key)
      × (is_empty req.api_key ≡ true
          → (call.provider ≡ "anthropic" → call.api_key ≡ opts.anthropic_api_key)
            × (call.provider ≡ "openai" → call.api_key ≡ opts.openai_api_key))

  IsOwn-Proper :
      (name : String) (req : ExtractRequest) (call : Call)
      → IsOwn (built_with name) req call
      → Proper req call
  unfolding lookup
  IsOwn-Proper name req call own = (
    BuiltBy-AtHome name call own.built,
    own.own_key,
    λ none_given. (
      λ e. own.their_key none_given ∙ ap (λ n. server_key (lookup n (built_with name).api_keys)) e,
      λ e. own.their_key none_given ∙ ap (λ n. server_key (lookup n (built_with name).api_keys)) e,
    ),
  )

  new_cloud_extractor-inl :
      (c : CloudExtractor)
      → new_cloud_extractor base64 system_prompt user_instruction marshal_anthropic
          unmarshal_anthropic marshal_openai unmarshal_openai quote opts
        ≡ inl c
      → (name : String) × (c ≡ built_with name)
  unfolding new_cloud_extractor
  new_cloud_extractor-inl c h =
      elim (Bool-cases
        (str_eq opts.default_provider "" || str_eq opts.default_provider "anthropic")) [
          | inl first ↦ (
            "anthropic",
            let e : inl (built_with "anthropic") ≡ inl c = rw first at h in ground arith,
          )
          | inr other ↦ elim (Bool-cases (str_eq opts.default_provider "openai")) [
            | inl second ↦ (
              "openai",
              let e : inl (built_with "openai") ≡ inl c = rw (other, second) at h in ground arith,
            )
            | inr unknown ↦ absurd (inr_not_inl (rw (other, unknown) at h))
          ]
        ]

  -- An extractor that `NewCloudExtractor` makes calls at most three times for a request, all calls
  -- alike. Each goes to its own provider's endpoint, with the request's key; if the request has
  -- none, a call to Anthropic carries the server's key for Anthropic, and one to OpenAI that for
  -- OpenAI.
  pub cloud_extract-new_cloud_extractor :
      (c : CloudExtractor) (parse_time : List ℕ → Option ℕ)
      (open_zip : List ℕ → List (String × (Tokens ⊎ String)) ⊎ String) (env : Answers)
      (req : ExtractRequest) (l : Log)
      → new_cloud_extractor base64 system_prompt user_instruction marshal_anthropic
          unmarshal_anthropic marshal_openai unmarshal_openai quote opts
        ≡ inl c
      → (m : ℕ) × (call : Call) × (m ≤ 3)
        × ((cloud_extract parse_time quote open_zip c env req l).1.calls ≡ l.calls ++ copies m call)
        × (1 ≤ m → Proper req call)
  cloud_extract-new_cloud_extractor c parse_time open_zip env req l h =
      let (name, same) = new_cloud_extractor-inl c h in
      let (m, call, few, calls, own) = cloud_extract-calls parse_time quote open_zip c env req l in
      (
        m,
        call,
        few,
        calls,
        λ some_call.
            IsOwn-Proper name req call
              (subst (λ (x : CloudExtractor). IsOwn x req call) same (own some_call).0),
      )
