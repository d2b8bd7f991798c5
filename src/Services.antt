-- ===== src/Services.antt =====
-- The services (backend/app/services).
pub mod Audit
pub mod Org
pub mod Invitation
pub mod ServiceAccount
pub mod ApiKey
pub mod Knowledge
pub mod Workspace
pub mod Auth
