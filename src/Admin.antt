-- ===== src/Admin.antt =====
-- internal/admin: the parts of the admin API that keep state.
pub mod SessionLimiter
pub mod Nodes
mod Examples
