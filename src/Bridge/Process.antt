-- ===== src/Bridge/Process.antt =====
-- cmd/extractor-bridge/main.go: `processEvent`, step by step. JSON, the files of a ZIP archive,
-- `url.Parse` and `path.Base` are parameters.
use webhook_mind.Prelude.{
  List, Option, String, [], false, if◌then◌else◌, inl, inr, none, not, some, str_eq, take, true, ℕ,
  ◌++◌, ◌<>◌, ◌||◌, ◌∷◌, ◌⊎◌,
}
use webhook_mind.Json.{Fields, end, member, str}
use webhook_mind.Models.{ExtractionRecord, WebhookEvent}
use webhook_mind.Queue.{RedisQueue, delivery, enqueue}
use webhook_mind.Extraction.Docx.{Tokens, classify_zip}
use webhook_mind.Extraction.Backend.{ExtractResponse, Extracted, Extractor, errored, responded}
use webhook_mind.Extraction.Cleanup.{strip_code_fences}
use webhook_mind.Extraction.Detect.{detect_file_type}
use webhook_mind.Bridge.Types.{
  Answers, BridgeState, Parsed, a_map, as_json, download_file, extract_filename, malformed,
  new_record, nil_map, set_member, upsert_row,
}

module _ {W : Type 0} (extractor : Extractor W) (marshal : WebhookEvent → List ℕ)
    (unmarshal : List ℕ → Option WebhookEvent) (parse_map : List ℕ → Parsed)
    (marshal_map : Fields → Option (List ℕ)) (to_text : List ℕ → String)
    (open_zip : List ℕ → List (String × (Tokens ⊎ String)) ⊎ String)
    (url_path : String → Option String) (base : String → String) (env : Answers) where
  abbrev pub or_lost : RedisQueue → Option RedisQueue → RedisQueue
  or_lost q none = q
  or_lost q (some q') = q'

  -- `enqueueForDelivery`
  unfoldable pub enqueue_for_delivery : WebhookEvent → BridgeState W → BridgeState W
  unfolding enqueue
  enqueue_for_delivery event st = record st {
    queue = or_lost st.queue (enqueue marshal unmarshal env.enqueue_fails delivery event st.queue);
  }

  abbrev pub insert_record : ExtractionRecord → BridgeState W → BridgeState W
  insert_record r st =
      if env.insert_fails then st else record st { extractions = st.extractions ++ r ∷ [] }

  -- The end of every branch that fails: the record, and the event for delivery.
  unfoldable pub give_up :
      WebhookEvent → ExtractionRecord → String → BridgeState W → Option (BridgeState W)
  unfolding enqueue_for_delivery
  give_up event r message st = some (
      enqueue_for_delivery event (
        insert_record
          (record r { success = false; error_message = message; duration_ms = env.elapsed }) st))

  -- The fields of the answer; a text that is not a JSON object is kept raw.
  abbrev pub fields_of : List ℕ → Parsed → Option Fields
  fields_of json malformed = some (member "raw" (str (to_text json)) end)
  fields_of json nil_map = none
  fields_of json (a_map fs) = some fs

  abbrev pub with_body : WebhookEvent → Option (List ℕ) → WebhookEvent
  with_body event none = event
  with_body event (some raw) = record event { raw_body = raw }

  -- `payload["extracted"] = extractedData` and its encoding; a nil map panics.
  unfoldable pub merge : WebhookEvent → Option Fields → Parsed → Option WebhookEvent
  merge event extracted malformed = some event
  merge event extracted nil_map = none
  merge event extracted (a_map payload) =
      some (with_body event (marshal_map (set_member "extracted" (as_json extracted) payload)))

  abbrev pub upsert_template :
      WebhookEvent → String → ExtractResponse → Option Fields → BridgeState W → BridgeState W
  upsert_template event file_type resp extracted st =
      if str_eq resp.template_id "" || env.template_fails then st else record st {
        templates =
            upsert_row
              (record {
                template_id = resp.template_id;
                source_id = event.source_id;
                file_type = file_type;
                field_position_map = extracted;
                sample_event_id = event.id;
                use_count = 1;
              })
              st.templates;
      }

  abbrev pub publish_complete : WebhookEvent → BridgeState W → BridgeState W
  publish_complete event st =
      if env.has_pub then record st { completed = st.completed ++ event.id ∷ [] } else st

  abbrev pub record_success :
      ExtractionRecord
      → String
      → ExtractResponse
      → Option Fields
      → BridgeState W
      → Option WebhookEvent
      → Option (BridgeState W)
  record_success r file_type resp extracted st none = none
  record_success r file_type resp extracted st (some event) = some (
      enqueue_for_delivery event (
        publish_complete event (
          upsert_template event file_type resp extracted (
            insert_record
              (record r {
                success = true;
                extracted_data = extracted;
                template_id = resp.template_id;
                cache_hit = resp.cache_hit;
                duration_ms = env.elapsed;
              })
              st))))

  -- Steps 6 to 8.
  unfoldable pub succeed :
      WebhookEvent
      → ExtractionRecord
      → String
      → ExtractResponse
      → BridgeState W
      → Option (BridgeState W)
  unfolding merge upsert_row enqueue_for_delivery strip_code_fences
  succeed event r file_type resp st =
      let extracted =
        fields_of resp.extracted_json (parse_map (strip_code_fences resp.extracted_json)) in
      record_success r file_type resp extracted st (
        merge (record event { extracted_data = extracted; extraction_ms = resp.duration_ms })
          extracted (parse_map event.raw_body))

  -- Step 5, by the answer of the backend; a nil response panics.
  unfoldable pub after_extract :
      WebhookEvent → ExtractionRecord → String → Extracted → BridgeState W → Option (BridgeState W)
  unfolding give_up succeed
  after_extract event r file_type (errored e) st = give_up event r ("grpc failed: " <> e) st
  after_extract event r file_type (responded none) st = none
  after_extract event r file_type (responded (some resp)) st =
      if not resp.success
      then give_up event r resp.error_message st
      else succeed event r file_type resp st

  abbrev pub after_presign :
      WebhookEvent
      → ExtractionRecord
      → String
      → List ℕ
      → BridgeState W
      → String ⊎ String
      → Option (BridgeState W)
  after_presign event r file_type bytes st (inr e) = give_up event r ("presign failed: " <> e) st
  after_presign event r file_type bytes st (inl url) =
      let (answer, world) =
        extractor.extract
          (record {
            event_id = event.id;
            source_id = event.source_id;
            file_path = event.file_store_path;
            file_type = file_type;
            presigned_url = url;
            file_bytes = bytes;
            api_key = event.api_key_override;
            provider = event.provider_override;
            model = event.model_override;
          })
          st.world in
      after_extract event r file_type answer (record st { world = world })

  abbrev pub object_path : WebhookEvent → String
  object_path event =
      event.source_id
      <> "/"
      <> env.date
      <> "/"
      <> event.id
      <> "/"
      <> extract_filename url_path base event.file_url event.id

  -- Steps 3 and 4.
  abbrev pub after_upload :
      WebhookEvent
      → ExtractionRecord
      → String
      → List ℕ
      → BridgeState W
      → Option String
      → Option (BridgeState W)
  after_upload event r file_type bytes st (some e) =
      give_up event r ("minio upload failed: " <> e) st
  after_upload event r file_type bytes st none =
      let path = object_path event in
      after_presign (record event { file_store_path = path }) (record r { minio_path = path })
        file_type bytes (record st { uploads = st.uploads ++ (path, bytes) ∷ [] }) env.presigned

  -- Step 2: the first 16 bytes, or the whole file of a ZIP.
  unfoldable pub file_type_of : List ℕ → String
  unfolding detect_file_type classify_zip
  file_type_of bytes =
      let detected = detect_file_type (take 16 bytes) in
      if str_eq detected "zip" then classify_zip open_zip bytes else detected

  abbrev pub after_type :
      WebhookEvent → ExtractionRecord → String → List ℕ → BridgeState W → Option (BridgeState W)
  after_type event r file_type bytes st =
      if str_eq file_type "unknown"
      then give_up event (record r { file_type = file_type }) "unknown file type" st
      else after_upload event (record r { file_type = file_type }) file_type bytes st env.upload

  abbrev pub after_download :
      WebhookEvent → ExtractionRecord → BridgeState W → List ℕ ⊎ String → Option (BridgeState W)
  after_download event r st (inr e) = give_up event r ("download failed: " <> e) st
  after_download event r st (inl bytes) = after_type event r (file_type_of bytes) bytes st

  -- `processEvent`; `none` is a panic.
  unfoldable pub process_event : WebhookEvent → BridgeState W → Option (BridgeState W)
  unfolding download_file extract_filename file_type_of give_up after_extract
  process_event event st =
      after_download event (new_record event) st (download_file env.max_size env.download)
