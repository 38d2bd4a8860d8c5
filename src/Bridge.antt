-- ===== src/Bridge.antt =====
-- cmd/extractor-bridge/main.go: the worker that enriches an event by what it extracts from a file.
pub mod Types
pub mod Process
pub mod Setup
pub mod Forwarded
