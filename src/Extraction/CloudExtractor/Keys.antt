-- ===== src/Extraction/CloudExtractor/Keys.antt =====
-- Whose key goes out to which provider.
use webhook_mind.Prelude.{
  Bool-cases, List, Option, String, [], append-nil, arith, false, inl, inr, is_empty, lookup, none,
  refl, some, str_eq, subst, sym, true, ℕ, ◌++◌, ◌∙◌, ◌∷◌, ◌≡◌, ◌≤◌, ◌⊎◌,
}
use webhook_mind.Extraction.Docx.{Tokens}
use webhook_mind.Extraction.Backend.{ExtractRequest}
use webhook_mind.Extraction.Cloud.{Call, LlmProvider, Log}
use webhook_mind.Extraction.Cloud.Calls.{call_provider_bounds, copies}
use webhook_mind.Extraction.CloudExtractor.{
  Answers, CloudExtractor, call_built, call_prepared, cloud_extract, file_of, prepared,
  provider_name, resolve_key, resolve_model, server_key, with_provider,
}

-- That a provider has made the endpoint and the body of a call.
pub data BuiltBy : Option LlmProvider → Call → Type 0 where
  built_by :
      (p : LlmProvider) (call : Call) (model : List ℕ) (file_type : String) (bytes : List ℕ)
      (media_type : String)
      → p.build_request model file_type bytes media_type ≡ inl (call.endpoint, call.body)
      → BuiltBy (some p) call

-- A call that a request may cause: it goes to the provider which the request names, or to the
-- default if it names none, and carries the request's own key, or the server's key for that provider
-- if the request has none.
pub record IsOwn (c : CloudExtractor) (req : ExtractRequest) (call : Call) : Type 0 where
  pub to_provider : call.provider ≡ provider_name c req
  pub own_key : is_empty req.api_key ≡ false → call.api_key ≡ req.api_key
  pub their_key :
      is_empty req.api_key ≡ true → call.api_key ≡ server_key (lookup call.provider c.api_keys)
  pub some_key : is_empty call.api_key ≡ false
  pub built : BuiltBy (lookup call.provider c.providers) call

module _ (parse_time : List ℕ → Option ℕ) (quote : String → String)
    (open_zip : List ℕ → List (String × (Tokens ⊎ String)) ⊎ String) where
  -- What calls a step adds, that they carry this name and key, and that the provider built them.
  abbrev Sends : String → List ℕ → Option LlmProvider → Log → Log → Type 0
  Sends name key p l l' =
      (m : ℕ) × (call : Call) × (m ≤ 3)
      × (l'.calls ≡ l.calls ++ copies m call)
      × (1 ≤ m
          → (call.provider ≡ name) × (call.api_key ≡ key) × (is_empty key ≡ false) × BuiltBy p call)

  Sends-refl :
      (name : String) (key : List ℕ) (p : Option LlmProvider) (l : Log) → Sends name key p l l
  Sends-refl name key p l = (
    0,
    record { provider = name; api_key = key; endpoint = ""; body = [] },
    omega arith,
    sym (append-nil l.calls),
    λ h. absurd (omega arith),
  )

  call_built-Sends :
      (env : Answers) (p : LlmProvider) (name : String) (key model : List ℕ) (file_type : String)
      (bytes : List ℕ) (media_type : String) (request : String × List ℕ ⊎ String) (l : Log)
      → is_empty key ≡ false
      → p.build_request model file_type bytes media_type ≡ request
      → Sends name key (some p) l (call_built parse_time quote open_zip env p name key request l).1
  call_built-Sends env p name key model file_type bytes media_type (inr e) l h made =
      Sends-refl name key (some p) l
  call_built-Sends env p name key model file_type bytes media_type (inl (endpoint, body)) l h made =
      let call : Call = record {
        provider = name;
        api_key = key;
        endpoint = endpoint;
        body = body;
      } in
      let (m, small, same) =
        call_provider_bounds parse_time env.now p call env.reply env.context_done l in
      (
        m,
        call,
        small,
        same,
        λ some_call. (refl, refl, h, built_by p call model file_type bytes media_type made),
      )

  with_provider-Sends :
      (env : Answers) (req : ExtractRequest) (name : String) (key : List ℕ) (p : Option LlmProvider)
      (l : Log)
      → Sends name key p l (with_provider parse_time quote open_zip env req name key p l).1
  with_provider-Sends env req name key none l = Sends-refl name key none l
  with_provider-Sends env req name [] (some p) l = Sends-refl name [] (some p) l
  with_provider-Sends env req name (k ∷ key) (some p) l =
      go (
        prepared parse_time quote open_zip req.file_type
          (file_of parse_time quote open_zip env req))
    where
      go :
          (ready : (String × List ℕ × String) ⊎ String)
          → Sends name
              (k ∷ key)
              (some p)
              l
              (call_prepared parse_time quote open_zip env p name
                (k ∷ key)
                (resolve_model p req)
                ready
                l).1
      go (inr e) = Sends-refl name (k ∷ key) (some p) l
      go (inl (file_type, bytes, media_type)) =
          call_built-Sends env p name (k ∷ key) (resolve_model p req) file_type bytes media_type _ l
            refl refl

  resolved_key-IsOwn :
      (c : CloudExtractor) (req : ExtractRequest) (call : Call)
      → call.provider ≡ provider_name c req
      → call.api_key ≡ resolve_key c req
      → is_empty (resolve_key c req) ≡ false
      → BuiltBy (lookup (provider_name c req) c.providers) call
      → IsOwn c req call
  unfolding resolve_key
  resolved_key-IsOwn c req call name key filled made = record {
    to_provider = name;
    own_key = λ h. key ∙ ground (arith, h);
    their_key = λ h. key ∙ (rw (name, h) refl);
    some_key = rw key filled;
    built = subst (λ n. BuiltBy (lookup n c.providers) call) (sym name) made;
  }

  -- One extraction makes at most three calls, all alike. If it makes one, the file is not audio, and
  -- the call carries the request's own key or, if it has none, the server's key for the provider it
  -- goes to, and never an empty one; that provider has made its endpoint and its body.
  pub cloud_extract-calls :
      (c : CloudExtractor) (env : Answers) (req : ExtractRequest) (l : Log)
      → (m : ℕ) × (call : Call) × (m ≤ 3)
        × ((cloud_extract parse_time quote open_zip c env req l).1.calls ≡ l.calls ++ copies m call)
        × (1 ≤ m → IsOwn c req call × (str_eq req.file_type "audio" ≡ false))
  unfolding cloud_extract
  cloud_extract-calls c env req l = elim (Bool-cases (str_eq req.file_type "audio")) [
    | inl audio ↦ rw audio (
      0,
      record { provider = ""; api_key = []; endpoint = ""; body = [] },
      omega arith,
      sym (append-nil l.calls),
      λ h. absurd (omega arith),
    )
    | inr other ↦ rw other (
        let (m, call, small, same, own) =
          with_provider-Sends env req (provider_name c req) (resolve_key c req)
            (lookup (provider_name c req) c.providers) l in
        (
          m,
          call,
          small,
          same,
          λ h.
              let (name, key, filled, made) = own h in
              (resolved_key-IsOwn c req call name key filled made, refl),
        ))
  ]
