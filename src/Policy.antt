-- ===== src/Policy.antt =====
-- internal/policy/policy.go: the policy-as-data engine.
pub mod Window
pub mod Engine
