-- ===== src/Tests/Bridge.antt =====
-- Runs of the extractor bridge.
use mathlib.Core.Option
use webhook_mind.Prelude.{
  List, Option, String, [], codes, false, inl, none, refl, some, suc, true, ℕ, ◌∷◌, ◌≡◌,
}
use webhook_mind.Json.{end}
use webhook_mind.Models.{WebhookEvent}
use webhook_mind.Extraction.Backend.{Extractor, responded}
use webhook_mind.Extraction.Cleanup.{strip_code_fences}
use webhook_mind.Extraction.Detect.{detect_file_type}
use webhook_mind.Bridge.Types.{Answers, BridgeState, a_map, file}
use webhook_mind.Bridge.Process.{process_event}
use webhook_mind.Bridge.Forwarded.{Forwarded, process_event-Forwarded}

strip_code_fences_tests :
    (strip_code_fences (codes " ```json\n{1}\n```\n x") ≡ codes "{1}")
    × (strip_code_fences (codes "{1} ``` y") ≡ codes "{1}")
    × (strip_code_fences (codes " plain ") ≡ codes "plain")
unfolding strip_code_fences
strip_code_fences_tests = (refl, refl, refl)

detect_file_type_tests :
    (detect_file_type (codes "%PDF-1.7") ≡ "pdf")
    × (detect_file_type (codes "a,b,c") ≡ "csv")
    × (detect_file_type (codes "  <a/>") ≡ "xml")
    × (detect_file_type (codes "RIFF0000WAVEfmt ") ≡ "audio")
    × (detect_file_type (0xFF ∷ 0xE0 ∷ 0 ∷ 0 ∷ []) ≡ "audio")
    × (detect_file_type (codes "abc") ≡ "unknown")
unfolding detect_file_type
detect_file_type_tests = (refl, refl, refl, refl, refl, refl)

abbrev uploaded : WebhookEvent
uploaded = record {
  id = "e1";
  source_id = "s1";
  received_at = 0;
  raw_body = codes "{}";
  headers = [];
  file_url = "http://files/f.csv";
  file_store_path = "";
  extracted_data = none;
  extraction_ms = 0;
  api_key_override = [];
  provider_override = "";
  model_override = [];
}

-- A backend that counts its runs and answers.
abbrev answering : Extractor ℕ
answering = record {
  extract = λ req n. (
    responded (
        some (record {
          success = true;
          error_message = "";
          extracted_json = codes "{}";
          template_id = "t1";
          cache_hit = false;
          duration_ms = 3;
        })),
    suc n,
  );
  close = λ n. (none, n);
}

abbrev to_raw : WebhookEvent → List ℕ
to_raw e = e.raw_body

abbrev of_raw : List ℕ → Option WebhookEvent
of_raw raw = some uploaded

abbrev a_file : Answers
a_file = record {
  max_size = 100;
  download = file 200 (codes "a,b\n1,2");
  date = "2026/01/02";
  upload = none;
  presigned = inl "http://minio/f";
  elapsed = 9;
  insert_fails = false;
  template_fails = false;
  enqueue_fails = false;
  has_pub = true;
}

abbrev at_start : BridgeState ℕ
at_start = record {
  world = 0;
  queue = record { incoming_list = []; delivery_list = []; extraction_list = []; dlq_list = [] };
  extractions = [];
  templates = [];
  uploads = [];
  completed = [];
}

abbrev run_of : Answers → Option (BridgeState ℕ)
run_of env =
    process_event answering to_raw of_raw (λ s. a_map end) (λ fs. some (codes "merged"))
      (λ s. "text") (λ s. inl []) (λ url. some "f.csv") (λ p. p) env uploaded at_start

abbrev summary : BridgeState ℕ → List (List ℕ) × ℕ × List String
summary st = (st.queue.delivery_list, st.world, st.completed)

process_event_runs :
    (Option.map summary (run_of a_file) ≡ some (codes "merged" ∷ [], 1, "e1" ∷ []))
    × (Option.map summary (run_of (record a_file { upload = some "full" }))
        ≡ some (codes "{}" ∷ [], 0, []))
unfolding process_event
process_event_runs = (refl, refl)

process_event-Forwarded_example :
    (st' : BridgeState ℕ) × (process_event answering to_raw of_raw
        (λ s. a_map end)
        (λ fs. some (codes "merged"))
        (λ s. "text")
        (λ s. inl [])
        (λ url. some "f.csv")
        (λ p. p)
        a_file
        uploaded
        at_start
      ≡ some st')
    × Forwarded answering to_raw of_raw
        (λ s. a_map end)
        (λ fs. some (codes "merged"))
        (λ s. "text")
        (λ s. inl [])
        (λ url. some "f.csv")
        (λ p. p)
        a_file
        uploaded
        at_start
        st'
process_event-Forwarded_example =
    process_event-Forwarded answering to_raw of_raw (λ s. a_map end) (λ fs. some (codes "merged"))
      (λ s. "text") (λ s. inl []) (λ url. some "f.csv") (λ p. p) a_file uploaded at_start refl refl
      (λ e. cc) (λ req w e. cc)
