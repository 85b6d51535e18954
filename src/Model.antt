-- ===== src/Model.antt =====
-- src/model.rs: the data that the parts of the agent exchange.
pub mod Objects
pub mod Policy
pub mod Quantity
pub mod Command
pub mod Json
pub mod Result
