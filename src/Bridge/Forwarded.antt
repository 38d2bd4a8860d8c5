-- ===== src/Bridge/Forwarded.antt =====
-- No event is lost: whatever fails on the way, it is passed on for delivery.
use webhook_mind.Prelude.{
  Bool-cases, List, Option, Option-cases, String, [], ap, arith, false, inl, inr, none, not, refl,
  some, str_eq, sym, true, ℕ, ◌++◌, ◌∙◌, ◌∷◌, ◌≡◌, ◌≢◌, ◌⊎◌,
}
use webhook_mind.Json.{Fields}
use webhook_mind.Models.{ExtractionRecord, WebhookEvent}
use webhook_mind.Queue.{enqueue}
use webhook_mind.Extraction.Docx.{Tokens}
use webhook_mind.Extraction.Backend.{
  ExtractRequest, ExtractResponse, Extracted, Extractor, errored, responded,
}
use webhook_mind.Extraction.Cleanup.{strip_code_fences}
use webhook_mind.Bridge.Types.{
  Answers, BridgeState, Parsed, a_map, as_json, download_file, malformed, new_record, nil_map,
  set_member,
}
use webhook_mind.Bridge.Process.{
  after_download, after_extract, after_presign, after_upload, enqueue_for_delivery, fields_of,
  file_type_of, give_up, insert_record, merge, object_path, process_event, publish_complete,
  record_success, succeed, upsert_template,
}

module _ {W : Type 0} (extractor : Extractor W) (marshal : WebhookEvent → List ℕ)
    (unmarshal : List ℕ → Option WebhookEvent) (parse_map : List ℕ → Parsed)
    (marshal_map : Fields → Option (List ℕ)) (to_text : List ℕ → String)
    (open_zip : List ℕ → List (String × (Tokens ⊎ String)) ⊎ String)
    (url_path : String → Option String) (base : String → String) (env : Answers) where
  -- What passes an event on: one entry more on the delivery list, one record more, both for the
  -- event, and a body that is the original one unless the extraction counts as a success.
  pub record Forwarded (event : WebhookEvent) (st : BridgeState W) (st' : BridgeState W)
      : Type 0 where
    pub sent : WebhookEvent
    pub r : ExtractionRecord
    pub queued :
        st'.queue
        ≡ record (st.queue) { delivery_list = st.queue.delivery_list ++ marshal sent ∷ [] }
    pub recorded : st'.extractions ≡ st.extractions ++ r ∷ []
    pub same_event :
        (sent.id ≡ event.id) × (sent.source_id ≡ event.source_id) × (sent.headers ≡ event.headers)
    pub same_record : (r.event_id ≡ event.id) × (r.source_id ≡ event.source_id)
    pub untouched : r.success ≡ false → sent.raw_body ≡ event.raw_body

  -- An event and a record under way, as they were at the start in what counts.
  abbrev Sameness :
      WebhookEvent → BridgeState W → WebhookEvent → ExtractionRecord → BridgeState W → Type 0
  Sameness event st now r st' =
      ((now.id ≡ event.id) × (now.source_id ≡ event.source_id) × (now.headers ≡ event.headers))
      × (now.raw_body ≡ event.raw_body)
      × ((r.event_id ≡ event.id) × (r.source_id ≡ event.source_id))
      × (st'.queue ≡ st.queue)
      × (st'.extractions ≡ st.extractions)

  module _ (up : env.enqueue_fails ≡ false) (writes : env.insert_fails ≡ false)
      (event : WebhookEvent) (st : BridgeState W) where
    -- A step that ends, and passes the event on.
    abbrev Passes : Option (BridgeState W) → Type 0
    Passes result = (st' : BridgeState W) × (result ≡ some st') × Forwarded event st st'

    give_up-Forwarded :
        (now : WebhookEvent) (r : ExtractionRecord) (message : String) (st₁ : BridgeState W)
        → Sameness event st now r st₁
        → Passes (
            give_up extractor marshal unmarshal parse_map marshal_map to_text open_zip url_path base
              env now r message st₁)
    unfolding give_up enqueue_for_delivery enqueue
    give_up-Forwarded now r message st₁ (ids, body, rids, q, x) = (
      _,
      refl,
      record {
        sent = now;
        r = record r { success = false; error_message = message; duration_ms = env.elapsed };
        queued = rw (up, writes, q) refl;
        recorded = rw (writes, x) refl;
        same_event = ids;
        same_record = rids;
        untouched = λ h. body;
      },
    )

    publication-queue :
        (sent : WebhookEvent) (file_type : String) (resp : ExtractResponse)
        (extracted : Option Fields) (st₁ : BridgeState W)
        → let st₂ =
            publish_complete extractor marshal unmarshal parse_map marshal_map to_text open_zip
              url_path base env sent
              (upsert_template extractor marshal unmarshal parse_map marshal_map to_text open_zip
                url_path base env sent file_type resp extracted st₁) in
          (st₂.queue ≡ st₁.queue) × (st₂.extractions ≡ st₁.extractions)
    publication-queue sent file_type resp extracted st₁ = ground arith

    record_success-Forwarded :
        (sent : WebhookEvent) (r : ExtractionRecord) (file_type : String) (resp : ExtractResponse)
        (extracted : Option Fields) (st₁ : BridgeState W)
        → (sent.id ≡ event.id) × (sent.source_id ≡ event.source_id) × (sent.headers ≡ event.headers)
        → (r.event_id ≡ event.id) × (r.source_id ≡ event.source_id)
        → st₁.queue ≡ st.queue
        → st₁.extractions ≡ st.extractions
        → Passes (
            record_success extractor marshal unmarshal parse_map marshal_map to_text open_zip
              url_path base env r file_type resp extracted st₁
              (some sent))
    unfolding enqueue_for_delivery enqueue
    record_success-Forwarded sent r file_type resp extracted st₁ ids rids q x =
        let done : ExtractionRecord = record r {
          success = true;
          extracted_data = extracted;
          template_id = resp.template_id;
          cache_hit = resp.cache_hit;
          duration_ms = env.elapsed;
        } in
        let (same_queue, same_records) = publication-queue sent file_type resp extracted (
          insert_record extractor marshal unmarshal parse_map marshal_map to_text open_zip url_path
            base env done st₁) in
        (
          _,
          refl,
          record {
            sent = sent;
            r = done;
            queued = rw (up, same_queue, writes, q) refl;
            recorded = same_records ∙ (rw (writes, x) refl);
            same_event = ids;
            same_record = rids;
            untouched = λ h. absurd (ground arith);
          },
        )

    succeed-Forwarded :
        (now : WebhookEvent) (r : ExtractionRecord) (file_type : String) (resp : ExtractResponse)
        (st₁ : BridgeState W)
        → parse_map event.raw_body ≢ nil_map
        → Sameness event st now r st₁
        → Passes (
            succeed extractor marshal unmarshal parse_map marshal_map to_text open_zip url_path base
              env now r file_type resp st₁)
    unfolding succeed merge
    succeed-Forwarded now r file_type resp st₁ decodes (ids, body, rids, q, x) =
        go (parse_map now.raw_body) refl
      where
        extracted : Option Fields
        extracted =
            fields_of extractor marshal unmarshal parse_map marshal_map to_text open_zip url_path
              base env resp.extracted_json (parse_map (strip_code_fences resp.extracted_json))

        enriched : WebhookEvent
        enriched = record now { extracted_data = extracted; extraction_ms = resp.duration_ms }

        go :
            (p : Parsed)
            → parse_map now.raw_body ≡ p
            → Passes (
                record_success extractor marshal unmarshal parse_map marshal_map to_text open_zip
                  url_path base env r file_type resp extracted st₁
                  (merge extractor marshal unmarshal parse_map marshal_map to_text open_zip url_path
                    base env enriched extracted p))
        go malformed e =
            record_success-Forwarded enriched r file_type resp extracted st₁ ids rids q x
        go nil_map e = absurd (decodes (ap parse_map (sym body) ∙ e))
        go (a_map payload) e =
            elim (Option-cases (marshal_map (set_member "extracted" (as_json extracted) payload))) [
              | inl unwritten ↦
                  rw unwritten
                    (record_success-Forwarded _ r file_type resp extracted st₁ ids rids q x)
              | inr (raw, written) ↦
                  rw written
                    (record_success-Forwarded _ r file_type resp extracted st₁ ids rids q x)
            ]

    after_extract-Forwarded :
        (now : WebhookEvent) (r : ExtractionRecord) (file_type : String) (answer : Extracted)
        (st₁ : BridgeState W)
        → parse_map event.raw_body ≢ nil_map
        → answer ≢ responded none
        → Sameness event st now r st₁
        → Passes (
            after_extract extractor marshal unmarshal parse_map marshal_map to_text open_zip
              url_path base env now r file_type answer st₁)
    unfolding after_extract
    after_extract-Forwarded now r file_type (errored e) st₁ decodes answers same =
        give_up-Forwarded now r _ st₁ same
    after_extract-Forwarded now r file_type (responded none) st₁ decodes answers same =
        absurd (answers refl)
    after_extract-Forwarded now r file_type (responded (some resp)) st₁ decodes answers same =
        elim (Bool-cases (not resp.success)) [
          | inl bad ↦ rw bad (give_up-Forwarded now r _ st₁ same)
          | inr good ↦ rw good (succeed-Forwarded now r file_type resp st₁ decodes same)
        ]

  -- If Redis and the insertion of records do not fail, the body is not the JSON text `null`, and
  -- the backend returns a response or an error: `processEvent` ends, and whatever else fails, it
  -- puts exactly one event on the delivery list, with the identifier, source and headers it had, and
  -- adds exactly one record of the extraction. Where that record is not a success, the event has
  -- the body it came with.
  pub process_event-Forwarded :
      (event : WebhookEvent) (st : BridgeState W)
      → env.enqueue_fails ≡ false
      → env.insert_fails ≡ false
      → parse_map event.raw_body ≢ nil_map
      → ((req : ExtractRequest) (w : W) → (extractor.extract req w).0 ≢ responded none)
      → (st' : BridgeState W) × (process_event extractor marshal unmarshal parse_map marshal_map
            to_text open_zip url_path base env event st
          ≡ some st')
        × Forwarded event st st'
  unfolding process_event
  process_event-Forwarded event st up writes decodes answers =
      go (download_file env.max_size env.download)
    where
      after_presign-Forwarded :
          (now : WebhookEvent) (r : ExtractionRecord) (file_type : String) (bytes : List ℕ)
          (st₁ : BridgeState W) (url : String ⊎ String)
          → Sameness event st now r st₁
          → Passes up writes event st (
              after_presign extractor marshal unmarshal parse_map marshal_map to_text open_zip
                url_path base env now r file_type bytes st₁ url)
      after_presign-Forwarded now r file_type bytes st₁ (inr e) same =
          give_up-Forwarded up writes event st now r _ st₁ same
      after_presign-Forwarded now r file_type bytes st₁ (inl url) same =
          after_extract-Forwarded up writes event st now r file_type _ _ decodes (answers _ _) same

      after_upload-Forwarded :
          (r : ExtractionRecord) (file_type : String) (bytes : List ℕ) (error : Option String)
          → Sameness event st event r st
          → Passes up writes event st (
              after_upload extractor marshal unmarshal parse_map marshal_map to_text open_zip
                url_path base env event r file_type bytes st error)
      after_upload-Forwarded r file_type bytes (some e) same =
          give_up-Forwarded up writes event st event r _ st same
      after_upload-Forwarded r file_type bytes none same =
          let path =
            object_path extractor marshal unmarshal parse_map marshal_map to_text open_zip url_path
              base env event in
          after_presign-Forwarded (record event { file_store_path = path })
            (record r { minio_path = path }) file_type bytes
            (record st { uploads = st.uploads ++ (path, bytes) ∷ [] }) env.presigned same

      go :
          (answered : List ℕ ⊎ String)
          → Passes up writes event st (
              after_download extractor marshal unmarshal parse_map marshal_map to_text open_zip
                url_path base env event
                (new_record event)
                st
                answered)
      go (inr e) =
          give_up-Forwarded up writes event st event (new_record event) _ st
            ((refl, refl, refl), refl, (refl, refl), refl, refl)
      go (inl bytes) =
          elim (Bool-cases (
            str_eq
              (file_type_of extractor marshal unmarshal parse_map marshal_map to_text open_zip
                url_path base env bytes)
              "unknown")) [
                | inl bad ↦ rw bad (
                    give_up-Forwarded up writes event st event
                      (record (new_record event) {
                        file_type =
                            file_type_of extractor marshal unmarshal parse_map marshal_map to_text
                              open_zip url_path base env bytes;
                      })
                      "unknown file type" st ((refl, refl, refl), refl, (refl, refl), refl, refl))
                | inr known ↦ rw known (
                    after_upload-Forwarded
                      (record (new_record event) {
                        file_type =
                            file_type_of extractor marshal unmarshal parse_map marshal_map to_text
                              open_zip url_path base env bytes;
                      })
                      (file_type_of extractor marshal unmarshal parse_map marshal_map to_text
                        open_zip url_path base env bytes)
                      bytes env.upload ((refl, refl, refl), refl, (refl, refl), refl, refl))
              ]
