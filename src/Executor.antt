-- ===== src/Executor.antt =====
-- src/executor.rs: the commands that the agent runs.
pub mod Limits
pub mod Policy
pub mod Dedup
pub mod Api
pub mod Clock
pub mod Gate
pub mod Preflight
pub mod Scale
pub mod Rollout
pub mod Resources
pub mod Drain
pub mod Image
pub mod Update
pub mod Yaml
pub mod Answers
pub mod Dispatch
