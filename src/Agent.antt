-- ===== src/Agent.antt =====
-- The agent's side: agent/internal/agent.
pub mod Registry
pub mod Flavours
pub mod Scan
pub mod Ready
pub mod Upgrade
