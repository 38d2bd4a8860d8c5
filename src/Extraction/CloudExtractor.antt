-- ===== src/Extraction/CloudExtractor.antt =====
-- internal/extraction/cloud.go: `CloudExtractor.Extract`, with the file that it downloads and the
-- choice of the provider, key and model. `strconv.Quote` (%q), the files of a ZIP archive and the
-- network are parameters.
pub mod Keys
pub mod Providers
pub mod Endpoints
use webhook_mind.Prelude.{
  Bool, List, Option, String, [], false, if◌then◌else◌, inl, inr, is_empty, leb, lookup, none, some,
  str_eq, true, ℕ, ◌<>◌, ◌⊎◌,
}
use webhook_mind.Json.Sprint.{decimal}
use webhook_mind.Extraction.Docx.{Tokens, extract_docx_text}
use webhook_mind.Extraction.Backend.{ExtractRequest, Extracted, responded}
use webhook_mind.Extraction.Cloud.{Call, LlmProvider, Log, Reply, call_provider}

pub record CloudExtractor : Type 0 where
  pub providers : List (String × LlmProvider)
  pub api_keys : List (String × List ℕ)
  pub default_provider : String

-- What the download of a file comes to: an error of the request or of reading, or an answer with
-- its status, content type and body.
pub data Download : Type 0 where
  no_answer : String → Download
  downloaded : ℕ → String → List ℕ → Download

-- `inferMediaType`
unfoldable pub infer_media_type : String → String
infer_media_type file_type =
    if str_eq file_type "pdf"
    then "application/pdf"
    else if str_eq file_type "image"
    then "image/png"
    else if str_eq file_type "csv"
    then "text/csv"
    else if str_eq file_type "xml"
    then "application/xml"
    else if str_eq file_type "docx"
    then "application/vnd.openxmlformats-officedocument.wordprocessingml.document"
    else "application/octet-stream"

-- `providerHeaderName`
unfoldable pub provider_header_name : String → String
provider_header_name provider =
    if str_eq provider "openai"
    then "OpenAI"
    else if str_eq provider "anthropic"
    then "Anthropic"
    else provider

-- `downloadFile`
unfoldable pub download_file : String → Download → List ℕ × String ⊎ String
unfolding decimal infer_media_type
download_file file_type (no_answer e) = inr e
download_file file_type (downloaded status content_type body) =
    if leb 400 status
    then inr ("download failed with status " <> decimal status)
    else inl (body, if str_eq content_type "" then infer_media_type file_type else content_type)

-- The provider's name, its own key before the server's, and a model, with the defaults.
abbrev pub provider_name : CloudExtractor → ExtractRequest → String
provider_name c req = if str_eq req.provider "" then c.default_provider else req.provider

abbrev pub server_key : Option (List ℕ) → List ℕ
server_key none = []
server_key (some key) = key

unfoldable pub resolve_key : CloudExtractor → ExtractRequest → List ℕ
unfolding lookup
resolve_key c req =
    if is_empty req.api_key
    then server_key (lookup (provider_name c req) c.api_keys)
    else req.api_key

abbrev pub resolve_model : LlmProvider → ExtractRequest → List ℕ
resolve_model p req = if is_empty req.model then p.default_model else req.model

-- What the environment answers during one extraction.
pub record Answers : Type 0 where
  pub now : ℕ
  pub elapsed : ℕ
  pub download : Download
  pub reply : ℕ → Reply
  pub context_done : ℕ → Bool

module _ (parse_time : List ℕ → Option ℕ) (quote : String → String)
    (open_zip : List ℕ → List (String × (Tokens ⊎ String)) ⊎ String) where
  abbrev pub failure : Answers → String → Extracted
  failure env message = responded (
      some (record {
        success = false;
        error_message = message;
        extracted_json = [];
        template_id = "";
        cache_hit = false;
        duration_ms = env.elapsed;
      }))

  abbrev pub answer_of : Answers → List ℕ ⊎ String → Extracted
  answer_of env (inr e) = failure env e
  answer_of env (inl text) = responded (
      some (record {
        success = true;
        error_message = "";
        extracted_json = text;
        template_id = "";
        cache_hit = false;
        duration_ms = env.elapsed;
      }))

  -- The file's bytes with their media type: those of the request, or the download.
  abbrev pub file_of : Answers → ExtractRequest → List ℕ × String ⊎ String
  file_of env req =
      if is_empty req.file_bytes
      then download_file req.file_type env.download
      else inl (req.file_bytes, infer_media_type req.file_type)

  -- A docx becomes text; the result is the file's type, bytes and media type.
  abbrev pub as_text : List ℕ ⊎ String → (String × List ℕ × String) ⊎ String
  as_text (inl text) = inl ("text", text, "text/plain")
  as_text (inr e) = inr ("docx extraction: " <> e)

  abbrev pub prepared : String → List ℕ × String ⊎ String → (String × List ℕ × String) ⊎ String
  prepared file_type (inr e) = inr ("file download: " <> e)
  prepared file_type (inl (bytes, media_type)) =
      if str_eq file_type "docx"
      then as_text (extract_docx_text open_zip bytes)
      else inl (file_type, bytes, media_type)

  abbrev pub call_built :
      Answers → LlmProvider → String → List ℕ → String × List ℕ ⊎ String → Log → Extracted × Log
  call_built env p name key (inr e) l = (failure env ("build request: " <> e), l)
  call_built env p name key (inl (endpoint, body)) l =
      let call : Call = record {
        provider = name;
        api_key = key;
        endpoint = endpoint;
        body = body;
      } in
      let (answer, l') = call_provider parse_time env.now p call env.reply env.context_done l in
      (answer_of env answer, l')

  abbrev pub call_prepared :
      Answers
      → LlmProvider
      → String
      → List ℕ
      → List ℕ
      → (String × List ℕ × String) ⊎ String
      → Log
      → Extracted × Log
  call_prepared env p name key model (inr e) l = (failure env e, l)
  call_prepared env p name key model (inl (file_type, bytes, media_type)) l =
      call_built env p name key (p.build_request model file_type bytes media_type) l

  abbrev pub with_provider :
      Answers → ExtractRequest → String → List ℕ → Option LlmProvider → Log → Extracted × Log
  with_provider env req name key none l =
      (failure env ("unknown provider " <> quote name <> " (supported: anthropic, openai)"), l)
  with_provider env req name key (some p) l =
      if is_empty key
      then (
        failure env (
            "no "
            <> name
            <> " API key — provide one via X-"
            <> provider_header_name name
            <> "-Key header or set the server-side key"),
        l,
      )
      else call_prepared env p name key (resolve_model p req)
          (prepared req.file_type (file_of env req)) l

  -- `CloudExtractor.Extract`; it never returns an error of its own.
  unfoldable pub cloud_extract : CloudExtractor → Answers → ExtractRequest → Log → Extracted × Log
  unfolding resolve_key lookup download_file infer_media_type provider_header_name call_provider
  cloud_extract c env req l =
      if str_eq req.file_type "audio"
      then (failure env "audio extraction not supported by cloud backend", l)
      else with_provider env req (provider_name c req) (resolve_key c req)
          (lookup (provider_name c req) c.providers) l
