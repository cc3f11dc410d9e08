-- ===== src/Update.antt =====
-- internal/update and cmd/geneza-bootstrap: the updates of a node's worker.
pub mod Reconcile
