-- ===== src/Tests.antt =====
-- Concrete runs, and each theorem that has hypotheses at an input that meets them.
mod Schema
mod Routing
mod Ingestion
mod Delivery
mod Extraction
mod Bridge
mod Sse
mod Replay
mod Event
mod Api
mod Config
mod Providers
mod Rules
mod Docx
mod Metrics
