-- ===== src/Auth.antt =====
-- Authentication (backend/app/auth).
pub mod RoutingToken
pub mod Refresh
pub mod PreAuth
pub mod Permissions
pub mod Password
