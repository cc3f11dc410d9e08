-- ===== src/Controller.antt =====
-- internal/controller: the control plane.
pub mod Rollout
pub mod DenyCache
pub mod Pagination
pub mod Presence
pub mod Audit
pub mod Rows
pub mod Nodes
pub mod Sessions
pub mod Drift
pub mod Reauth
