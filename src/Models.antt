-- ===== src/Models.antt =====
-- internal/models: the records that pass between the services. Times are Unix nanoseconds. Text
-- that the program only compares or joins is `String`; bodies, header values and keys of the LLM
-- providers are lists of bytes.
use webhook_mind.Prelude.{Bool, List, Option, String, ℕ}
use webhook_mind.Json.{Fields}

pub record WebhookEvent : Type 0 where
  pub id : String
  pub source_id : String
  pub received_at : ℕ
  pub raw_body : List ℕ
  pub headers : List (String × List ℕ)
  pub file_url : String
  pub file_store_path : String
  pub extracted_data : Option Fields
  pub extraction_ms : ℕ
  pub api_key_override : List ℕ
  pub provider_override : String
  pub model_override : List ℕ

-- The random `ID` and the time of the attempt are left out; the column's value is the database's.
pub record DeliveryAttempt : Type 0 where
  pub event_id : String
  pub source_id : String
  pub destination_id : String
  pub attempt_number : ℕ
  pub status_code : ℕ
  pub success : Bool
  pub error_message : String
  pub duration_ms : ℕ

pub record DeadLetterEntry : Type 0 where
  pub event_id : String
  pub source_id : String
  pub destination_id : String
  pub raw_body : List ℕ
  pub headers : List (String × List ℕ)
  pub failure_reason : String
  pub resolved : Bool

pub record ExtractionRecord : Type 0 where
  pub event_id : String
  pub source_id : String
  pub file_url : String
  pub minio_path : String
  pub file_type : String
  pub template_id : String
  pub cache_hit : Bool
  pub extracted_data : Option Fields
  pub duration_ms : ℕ
  pub success : Bool
  pub error_message : String

pub record Template : Type 0 where
  pub template_id : String
  pub source_id : String
  pub file_type : String
  pub field_position_map : Option Fields
  pub sample_event_id : String
  pub use_count : ℕ
