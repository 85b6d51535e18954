-- ===== src/Examples.antt =====
-- A small cluster, and the theorems at it.
pub mod Data
pub mod Policies
pub mod Handlers
pub mod Dispatch
pub mod Commands
pub mod Rounds
pub mod AgentLoops
pub mod LifecycleRounds
pub mod TetragonStreams
pub mod Technologies
pub mod HubRequests
