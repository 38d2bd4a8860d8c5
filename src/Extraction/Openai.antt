-- ===== src/Extraction/Openai.antt =====
-- internal/extraction/provider_openai.go: the requests to OpenAI and the reading of its answers.
-- The parameters are those of Extraction/Anthropic.antt.
use webhook_mind.Prelude.{
  List, Option, String, [], codes, if◌then◌else◌, inl, inr, insert, is_empty, none, some, str_eq, ℕ,
  ◌++◌, ◌<>◌, ◌||◌, ◌∷◌, ◌⊎◌,
}
use webhook_mind.Extraction.Cloud.{LlmProvider}
use webhook_mind.Extraction.Anthropic.{default_max_tokens}

abbrev pub openai_endpoint : String
openai_endpoint = "https://api.openai.com/v1/responses"

pub record OpenaiContentBlock : Type 0 where
  pub type : String
  pub text : List ℕ
  pub image_url : List ℕ
  pub detail : String
  pub filename : String
  pub file_data : List ℕ

pub record OpenaiInputMessage : Type 0 where
  pub role : String
  pub content : List OpenaiContentBlock

pub record OpenaiRequest : Type 0 where
  pub model : List ℕ
  pub instructions : List ℕ
  pub max_output_tokens : ℕ
  pub input : List OpenaiInputMessage

-- A decoded answer: its own text, the blocks of each item with type and text, and an error.
pub record OpenaiResponse : Type 0 where
  pub output_text : List ℕ
  pub output : List (List (String × List ℕ))
  pub error : Option (String × String)

-- `SetAuthHeaders`
unfoldable pub openai_headers : List ℕ → List (String × List ℕ) → List (String × List ℕ)
unfolding insert
openai_headers api_key headers =
    insert "Authorization" (codes "Bearer " ++ api_key)
      (insert "Content-Type" (codes "application/json") headers)

-- The inner loop, over the blocks of an item.
unfoldable pub block_text : List (String × List ℕ) → List ℕ
block_text [] = []
block_text ((type, text) ∷ blocks) =
    let rest = block_text blocks in
    if str_eq type "output_text" || str_eq type "text" then text ++ rest else rest

-- The outer loop, over the items.
unfoldable pub openai_text : List (List (String × List ℕ)) → List ℕ
unfolding block_text
openai_text [] = []
openai_text (blocks ∷ items) = block_text blocks ++ openai_text items

module _ (base64 : List ℕ → List ℕ) (system_prompt user_instruction : List ℕ) where
  abbrev input_text : List ℕ → OpenaiContentBlock
  input_text text = record {
    type = "input_text";
    text = text;
    image_url = [];
    detail = "";
    filename = "";
    file_data = [];
  }

  -- The `switch` on the type of the file.
  unfoldable pub openai_file : String → List ℕ → String → OpenaiContentBlock
  openai_file file_type bytes media_type =
      if str_eq file_type "pdf"
      then record {
        type = "input_file";
        text = [];
        image_url = [];
        detail = "";
        filename = "document.pdf";
        file_data = codes "data:application/pdf;base64," ++ base64 bytes;
      }
      else if str_eq file_type "image"
      then record {
        type = "input_image";
        text = [];
        image_url = codes ("data:" <> media_type <> ";base64,") ++ base64 bytes;
        detail = "auto";
        filename = "";
        file_data = [];
      }
      else input_text bytes

  unfoldable pub openai_request : List ℕ → String → List ℕ → String → OpenaiRequest
  unfolding openai_file
  openai_request model file_type bytes media_type = record {
    model = model;
    instructions = system_prompt;
    max_output_tokens = default_max_tokens;
    input =
        record {
          role = "user";
          content = openai_file file_type bytes media_type ∷ input_text user_instruction ∷ [];
        }
        ∷ [];
  }

  module _ (marshal : OpenaiRequest → List ℕ ⊎ String)
      (unmarshal : List ℕ → OpenaiResponse ⊎ String) where
    abbrev pub openai_built : List ℕ ⊎ String → String × List ℕ ⊎ String
    openai_built (inl body) = inl (openai_endpoint, body)
    openai_built (inr e) = inr ("marshal openai request: " <> e)

    -- `BuildRequest`
    unfoldable pub build_openai_request :
        List ℕ → String → List ℕ → String → String × List ℕ ⊎ String
    unfolding openai_request
    build_openai_request model file_type bytes media_type =
        openai_built (marshal (openai_request model file_type bytes media_type))

    abbrev text_or_error :
        List ℕ → List (List (String × List ℕ)) → Option (String × String) → List ℕ ⊎ String
    text_or_error own items none = inl (if is_empty own then openai_text items else own)
    text_or_error own items (some (type, message)) =
        inr ("openai error " <> type <> ": " <> message)

    abbrev parsed : OpenaiResponse ⊎ String → List ℕ ⊎ String
    parsed (inl r) = text_or_error r.output_text r.output r.error
    parsed (inr e) = inr ("parse openai response: " <> e)

    -- `ParseResponse`
    unfoldable pub parse_openai_response : List ℕ → List ℕ ⊎ String
    unfolding openai_text
    parse_openai_response body = parsed (unmarshal body)

    -- `NewOpenAIProvider`
    unfoldable pub new_openai_provider : List ℕ → LlmProvider
    unfolding build_openai_request parse_openai_response
    new_openai_provider default_model = record {
      name = "openai";
      default_model = if is_empty default_model then codes "gpt-4.1-mini" else default_model;
      build_request = build_openai_request;
      parse_response = parse_openai_response;
    }
