-- ===== src/Extraction.antt =====
-- internal/extraction: the backends that read fields out of a file, and what chooses between them.
pub mod Backend
pub mod Fallback
pub mod Cloud
pub mod Anthropic
pub mod Openai
pub mod CloudExtractor
pub mod Cleanup
pub mod Detect
pub mod Docx
