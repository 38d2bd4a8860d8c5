-- ===== src/Schema.antt =====
-- internal/schema: flattening, schema inference and drift detection.
pub mod Flatten
pub mod Types
pub mod Inference
pub mod Drift
