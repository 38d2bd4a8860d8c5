-- ===== src/Bridge/Types.antt =====
-- cmd/extractor-bridge/main.go: what `processEvent` reads and changes, and its helpers on files and
-- names.
use webhook_mind.Prelude.{
  Bool, List, Option, String, [], false, if◌then◌else◌, inl, inr, length, ltb, none, not, some,
  str_eq, take, ℕ, ◌+◌, ◌<>◌, ◌==◌, ◌||◌, ◌∷◌, ◌⊎◌,
}
use webhook_mind.Json.{Fields, Json, end, member, null, obj}
use webhook_mind.Json.Sprint.{decimal}
use webhook_mind.Models.{ExtractionRecord, Template, WebhookEvent}
use webhook_mind.Queue.{RedisQueue}

-- What a GET of the file comes to.
pub data FileAnswer : Type 0 where
  bad_url : String → FileAnswer
  get_error : String → FileAnswer
  read_error : String → FileAnswer
  file : ℕ → List ℕ → FileAnswer

-- `downloadFile`: at most one byte more than `max_size` is read.
unfoldable pub download_file : ℕ → FileAnswer → List ℕ ⊎ String
unfolding decimal
download_file max_size (bad_url e) = inr ("create request: " <> e)
download_file max_size (get_error e) = inr ("http get: " <> e)
download_file max_size (read_error e) = inr ("read body: " <> e)
download_file max_size (file status body) =
    if not (status == 200)
    then inr ("http status " <> decimal status)
    else if ltb max_size (length (take (max_size + 1) body))
    then inr ("file exceeds max size " <> decimal max_size <> " bytes")
    else inl (take (max_size + 1) body)

-- `extractFilename`, from the path of the parsed address and its base.
unfoldable pub extract_filename :
    (String → Option String) → (String → String) → String → String → String
extract_filename url_path base file_url event_id = elim (url_path file_url) [
  | none ↦ event_id
  | some p ↦
      if str_eq (base p) "" || str_eq (base p) "." || str_eq (base p) "/" then event_id else base p
]

-- A text decoded into a map: an error, the nil map of `null`, or a map.
pub data Parsed : Type 0 where
  malformed : Parsed
  nil_map : Parsed
  a_map : Fields → Parsed

-- The settings, and what the environment answers while one event is processed. `date` is the path
-- of the day, as in 2026/01/02.
pub record Answers : Type 0 where
  pub max_size : ℕ
  pub download : FileAnswer
  pub date : String
  pub upload : Option String
  pub presigned : String ⊎ String
  pub elapsed : ℕ
  pub insert_fails : Bool
  pub template_fails : Bool
  pub enqueue_fails : Bool
  pub has_pub : Bool

-- The state that `processEvent` changes; `world` is that of the extractor, `completed` the events
-- of the published completions.
pub record BridgeState (W : Type 0) : Type 0 where
  pub world : W
  pub queue : RedisQueue
  pub extractions : List ExtractionRecord
  pub templates : List Template
  pub uploads : List (String × List ℕ)
  pub completed : List String

-- `m[k] = v`, for the members of an object.
abbrev pub set_member : String → Json → Fields → Fields
set_member k v end = member k v end
set_member k v (member j w fs) =
    if str_eq j k then member j v fs else member j w (set_member k v fs)

abbrev pub as_json : Option Fields → Json
as_json none = null
as_json (some fs) = obj fs

abbrev pub new_record : WebhookEvent → ExtractionRecord
new_record event = record {
  event_id = event.id;
  source_id = event.source_id;
  file_url = event.file_url;
  minio_path = "";
  file_type = "";
  template_id = "";
  cache_hit = false;
  extracted_data = none;
  duration_ms = 0;
  success = false;
  error_message = "";
}

-- `UpsertTemplate` of internal/store/postgres.go: a template that is there is only counted.
unfoldable pub upsert_row : Template → List Template → List Template
upsert_row t [] = t ∷ []
upsert_row t (u ∷ ts) =
    let others = upsert_row t ts in
    if str_eq u.template_id t.template_id
    then record u { use_count = u.use_count + 1 } ∷ ts
    else u ∷ others
