-- ===== src/Lib.antt =====
-- Verification of the Go services of WebhookMind: reception, routing, schema learning and delivery
-- of webhooks.
--
-- A webhook enters by the ingestion service (internal/ingestion), which checks its rate and its
-- signature and puts it on the Redis list `incoming` (internal/queue). The orchestrator
-- (cmd/orchestrator) moves it to `extraction` or `delivery`; the extractor bridge
-- (cmd/extractor-bridge) adds what it extracts from a file. The delivery engine (internal/delivery)
-- learns the schema of each source and reports drifts from it (internal/schema), chooses the
-- destinations (internal/routing), and posts the event to each of them with retries; what cannot
-- be delivered goes to the dead letters.
--
-- Files, by the sources they model:
--   Json        values of encoding/json; `Json.Number` has the float64 values by their bit patterns,
--               `Json.Sprint` what fmt's %v prints of them
--   Models      internal/models: `WebhookEvent`, `DeliveryAttempt`, `DeadLetterEntry`
--   Queue       internal/queue/redis.go: `Enqueue`, `Dequeue`, `FindDLQEntry`, `RemoveDLQEntry`
--   Ingestion   `Signature`: internal/ingestion/signature.go; `RateLimit`:
--               internal/ratelimit/limiter.go; `Handler`: internal/ingestion/handler.go
--   Schema      internal/schema: `Flatten`, `Inference` and `Drift` by file; `Types` also has the
--               store's queries on schemas (internal/store/postgres.go)
--   Routing     internal/routing and the queries it issues (internal/store/postgres.go)
--   Delivery    internal/delivery/engine.go: `Destination` has `deliverToDestination` with all that
--               it calls, `Event` has `deliverEvent` and a round of a worker, `Diff` has
--               `computeDiffAsync`, `Recovery` has `RecoverIncomplete`
--   Config      internal/config/config.go: `load` is `Load`
--   Api         `Dlq`: `handleRetryDLQ` and `handleDiscardDLQ` (internal/api/handlers_dashboard.go);
--               `Rules` and `Replays`: the handlers of routing rules and replays
--               (internal/api/handlers.go)
--   Store       `Scylla`: internal/store/scylla.go, over a table in the order of its rows, with
--               theorems in `Rows`, `Scans` and `Bodies`;
--               `Sessions`: the table of replay sessions (internal/store/postgres.go)
--   Replay      internal/replay/engine.go: `start_replay` is `StartReplay`
--   Metrics     internal/pubsub/metrics.go: the values of each minute
--   Sse         internal/sse/hub.go: clients and broadcasts; `Sse.Buffers` has the runs of a hub
--   Bridge      cmd/extractor-bridge/main.go: `process_event` is `processEvent`, `Setup` has
--               `newExtractor`
--   Orchestrator  cmd/orchestrator/main.go: a worker's round (`work`) and the scaler (`scale`)
--   Extraction  internal/extraction: `Backend` (backend.go), `Fallback` (fallback.go), `Cloud` and
--               `CloudExtractor` (cloud.go, provider.go), `Anthropic` (provider_anthropic.go),
--               `Openai` (provider_openai.go), `Detect` (detect.go), `Cleanup`
--               (cleanup.go), `Docx` (docx.go)
--   Prelude     names of the libraries and helpers that all parts share
--   Tests       runs on concrete inputs
-- A Go function keeps its name in snake case; a piece of one that is a definition of its own says
-- in its comment which piece. Modules below a part hold its theorems.
--
-- Conventions. Times are Unix nanoseconds. Text that the program only compares or joins is
-- `String`; bytes that it walks are lists of numbers. A Go map is a list of its members, in the
-- order of one range over it, and theorems say where the order or a repeated key matters; one that
-- is about two ranges over a map has a list for each. State
-- (queues, tables, published events, requests made) is a record that operations take and return;
-- errors are `none`, or a constructor of a result type. An operation of Redis, Postgres or HTTP
-- that may fail has a flag or an answer in the environment it is given, so theorems about all
-- environments are theorems about all failures. Workers are sequential here: each operation on
-- Redis or Postgres is one step. A POST is what is handed to `http.Client.Do`: the requests to which
-- redirects lead are the client's, and its answer is the last one. Numbers of the scaler are int32
-- and wrap; `Verify` has Go's saturating difference of times. The bodies of events that are read in
-- one loop share arrays, as gocql scans them (`Store.Scylla.scan_rows`). An UPDATE of a replay's
-- session may fail: the model has which ones are issued.
--
-- Parameters: `gocql.ParseUUID`, the capacity of the arrays that gocql allocates, HMAC-SHA256, JSON
-- encoding and decoding of events and payloads, the script of redis_rate, `net.SplitHostPort`, `net/url`, `strconv.ParseFloat`, `strconv.Atoi`, `strconv.Quote`,
-- `strings.ToLower`, base64, the JSON
-- of the providers' requests and answers, the reading of ZIP files and XML, and what the network,
-- MinIO, Postgres and Redis answer. Hypotheses about them stand at the theorems that need them.
--
-- Loops recur on their lists. The loop over attempts recurs on the number of attempts that are
-- left, which is the loop's own bound. The loop in which a replay waits for the end of a pause has
-- fuel, one unit for each reading of the session; `start_replay_ends` says how much is enough.
--
-- Not modelled: the C++ extractor, the dashboard, SQL as such,
-- generated code, logging, and the wiring in cmd/. Logging has no effect on
-- the state.
mod Prelude
pub mod Json
pub mod Schema
pub mod Routing
pub mod Models
pub mod Queue
pub mod Store
pub mod Ingestion
pub mod Delivery
pub mod Extraction
pub mod Orchestrator
pub mod Bridge
pub mod Sse
pub mod Replay
mod Tests
pub mod Api
pub mod Config
pub mod Metrics
