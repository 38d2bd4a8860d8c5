-- ===== src/Extraction/Backend.antt =====
-- internal/extraction/backend.go: requests, responses and the interface of the extractors. An
-- extractor may change the world it runs in.
use webhook_mind.Prelude.{Bool, List, Option, String, false, none, some, ℕ}

pub record ExtractRequest : Type 0 where
  pub event_id : String
  pub source_id : String
  pub file_path : String
  pub file_type : String
  pub presigned_url : String
  pub file_bytes : List ℕ
  pub api_key : List ℕ
  pub provider : String
  pub model : List ℕ

-- The segments of a transcription are left out: no code under internal or cmd reads them.
pub record ExtractResponse : Type 0 where
  pub success : Bool
  pub error_message : String
  pub extracted_json : List ℕ
  pub template_id : String
  pub cache_hit : Bool
  pub duration_ms : ℕ

-- The pair that `Extract` returns: an error, or a response, which may be nil.
pub data Extracted : Type 0 where
  errored : String → Extracted
  responded : Option ExtractResponse → Extracted

-- `err == nil && resp != nil && resp.Success`
abbrev pub succeeded : Extracted → Bool
succeeded (errored e) = false
succeeded (responded none) = false
succeeded (responded (some r)) = r.success

-- `Extractor`: `close` gives the error, if any.
pub record Extractor (W : Type 0) : Type 0 where
  pub extract : ExtractRequest → W → Extracted × W
  pub close : W → Option String × W
