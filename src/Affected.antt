-- ===== src/Affected.antt =====
-- internal/affected: which installed components an advisory affects.
pub mod Ecosystem
pub mod Engine
