-- ===== src/Operator.antt =====
-- src/operator.rs: the action operator, which grants role bindings and writes policy statuses.
pub mod Namespaces
pub mod Status
pub mod Round
