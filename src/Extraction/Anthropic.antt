-- ===== src/Extraction/Anthropic.antt =====
-- internal/extraction/provider_anthropic.go: the requests to Anthropic and the reading of its
-- answers. `json.Marshal` of a request, `json.Unmarshal` of an answer and base64 are parameters; the
-- prompts of internal/extraction/provider.go are not spelled out.
use webhook_mind.Prelude.{
  List, Option, String, [], codes, if◌then◌else◌, inl, inr, insert, is_empty, none, some, str_eq, ℕ,
  ◌++◌, ◌<>◌, ◌∷◌, ◌⊎◌,
}
use webhook_mind.Extraction.Cloud.{LlmProvider}

abbrev pub anthropic_endpoint : String
anthropic_endpoint = "https://api.anthropic.com/v1/messages"

abbrev pub anthropic_version : List ℕ
anthropic_version = codes "2023-06-01"

abbrev pub default_max_tokens : ℕ
default_max_tokens = 4096

pub record AnthropicSource : Type 0 where
  pub type : String
  pub media_type : String
  pub source_data : List ℕ

-- A content block: text, or a source.
pub record AnthropicContentBlock : Type 0 where
  pub type : String
  pub text : List ℕ
  pub source : Option AnthropicSource

pub record AnthropicSystemBlock : Type 0 where
  pub type : String
  pub text : List ℕ
  pub cache_control : Option String

pub record AnthropicMessage : Type 0 where
  pub role : String
  pub content : List AnthropicContentBlock

pub record AnthropicRequest : Type 0 where
  pub model : List ℕ
  pub max_tokens : ℕ
  pub system : List AnthropicSystemBlock
  pub messages : List AnthropicMessage

-- A decoded answer: the type and the text of each block, and the type and message of an error.
pub record AnthropicResponse : Type 0 where
  pub content : List (String × List ℕ)
  pub error : Option (String × String)

-- `SetAuthHeaders`
unfoldable pub anthropic_headers : List ℕ → List (String × List ℕ) → List (String × List ℕ)
unfolding insert
anthropic_headers api_key headers =
    insert "Anthropic-Version" anthropic_version
      (insert "X-Api-Key" api_key (insert "Content-Type" (codes "application/json") headers))

-- The texts of the blocks of type text, joined.
unfoldable pub anthropic_text : List (String × List ℕ) → List ℕ
anthropic_text [] = []
anthropic_text ((type, text) ∷ blocks) =
    let rest = anthropic_text blocks in if str_eq type "text" then text ++ rest else rest

module _ (base64 : List ℕ → List ℕ) (system_prompt user_instruction : List ℕ) where
  abbrev source_block : String → String → List ℕ → AnthropicContentBlock
  source_block type media_type bytes = record {
    type = type;
    text = [];
    source = some (record { type = "base64"; media_type = media_type; source_data = base64 bytes });
  }

  abbrev text_block : List ℕ → AnthropicContentBlock
  text_block text = record { type = "text"; text = text; source = none }

  -- The `switch` on the type of the file.
  unfoldable pub anthropic_file : String → List ℕ → String → AnthropicContentBlock
  anthropic_file file_type bytes media_type =
      if str_eq file_type "pdf"
      then source_block "document" "application/pdf" bytes
      else if str_eq file_type "image"
      then source_block "image" media_type bytes
      else text_block bytes

  unfoldable pub anthropic_request : List ℕ → String → List ℕ → String → AnthropicRequest
  unfolding anthropic_file
  anthropic_request model file_type bytes media_type = record {
    model = model;
    max_tokens = default_max_tokens;
    system = record { type = "text"; text = system_prompt; cache_control = some "ephemeral" } ∷ [];
    messages =
        record {
          role = "user";
          content = anthropic_file file_type bytes media_type ∷ text_block user_instruction ∷ [];
        }
        ∷ [];
  }

  module _ (marshal : AnthropicRequest → List ℕ ⊎ String)
      (unmarshal : List ℕ → AnthropicResponse ⊎ String) where
    abbrev pub anthropic_built : List ℕ ⊎ String → String × List ℕ ⊎ String
    anthropic_built (inl body) = inl (anthropic_endpoint, body)
    anthropic_built (inr e) = inr ("marshal anthropic request: " <> e)

    -- `BuildRequest`
    unfoldable pub build_anthropic_request :
        List ℕ → String → List ℕ → String → String × List ℕ ⊎ String
    unfolding anthropic_request
    build_anthropic_request model file_type bytes media_type =
        anthropic_built (marshal (anthropic_request model file_type bytes media_type))

    abbrev text_or_error : List (String × List ℕ) → Option (String × String) → List ℕ ⊎ String
    text_or_error content none = inl (anthropic_text content)
    text_or_error content (some (type, message)) =
        inr ("anthropic error " <> type <> ": " <> message)

    abbrev parsed : AnthropicResponse ⊎ String → List ℕ ⊎ String
    parsed (inl r) = text_or_error r.content r.error
    parsed (inr e) = inr ("parse anthropic response: " <> e)

    -- `ParseResponse`
    unfoldable pub parse_anthropic_response : List ℕ → List ℕ ⊎ String
    unfolding anthropic_text
    parse_anthropic_response body = parsed (unmarshal body)

    -- `NewAnthropicProvider`
    unfoldable pub new_anthropic_provider : List ℕ → LlmProvider
    unfolding build_anthropic_request parse_anthropic_response
    new_anthropic_provider default_model = record {
      name = "anthropic";
      default_model = if is_empty default_model then codes "claude-haiku-4-5" else default_model;
      build_request = build_anthropic_request;
      parse_response = parse_anthropic_response;
    }
