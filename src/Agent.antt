-- ===== src/Agent.antt =====
-- internal/agentd: the agent of a node.
pub mod Live
pub mod Lease
