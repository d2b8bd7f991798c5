-- ===== src/Knowledge.antt =====
-- The ingestion of documents (backend/app/knowledge).
pub mod Chunker
pub mod Parsers
pub mod Ingestion
pub mod BlobStore
