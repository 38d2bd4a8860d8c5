-- ===== src/Ingestion.antt =====
-- internal/ingestion and internal/ratelimit: what happens to a request at POST /webhook/{source_id}.
pub mod Signature
pub mod RateLimit
pub mod Handler
