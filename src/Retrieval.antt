-- ===== src/Retrieval.antt =====
-- The search of passages (backend/app/retrieval).
pub mod Hybrid
