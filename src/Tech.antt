-- ===== src/Tech.antt =====
-- src/tech.rs: the technology of a container, from its image, its process or its labels.
pub mod Texts
pub mod Parts
pub mod Rules
pub mod Detect
pub mod Stack
pub mod Process
pub mod Labels
use hub_kubernetes_agent.Prelude.{String, Option}

-- `Technology` of src/model.rs
pub record Technology : Type 0 where
  pub vendor : Option String
  pub product : Option String
  pub version : Option String
  pub language : Option String
  pub source : String
  pub subtype : Option String
