-- ===== src/Answering.antt =====
-- Answers grounded in evidence (backend/app/answering).
pub mod Evidence
pub mod Citation
