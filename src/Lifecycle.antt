-- ===== src/Lifecycle.antt =====
-- src/operator_lifecycle.rs: the leader keeps the operator's workload and the labels of namespaces in
-- step with a ConfigMap.
pub mod Desired
pub mod Labels
pub mod Watch
pub mod Api
pub mod Workload
