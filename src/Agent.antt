-- ===== src/Agent.antt =====
-- src/main.rs: the loops of the agent.
pub mod Warnings
pub mod Mode
pub mod Commands
