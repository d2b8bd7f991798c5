-- ===== src/Db.antt =====
-- The database as the services see it: rows, tables, sessions and the audit log.
pub mod Models
pub mod Table
pub mod Session
pub mod KnowledgeModels
