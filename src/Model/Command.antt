-- ===== src/Model/Command.antt =====
-- model.rs: the command specifications that the handlers receive.
use hub_kubernetes_agent.Prelude.{ℕ, String, Option, none, Bool, ℤ}

pub data ExecutionMode : Type 0 where
  preview execute : ExecutionMode

pub record ExecutionSpec : Type 0 where
  pub mode : ExecutionMode
  pub approval_id : Option String
  pub preview_resource_version : Option String

pub record WorkloadTargetRef : Type 0 where
  pub kind : String
  pub namespace : String
  pub name : String

pub record RolloutRestartSpec : Type 0 where
  pub execution : ExecutionSpec
  pub target : WorkloadTargetRef

pub record DrainNodeSpec : Type 0 where
  pub node_name : String
  pub timeout_seconds : Option ℕ
  pub grace_period_seconds : Option ℕ
  pub force : Bool

-- `replicas` is an i32.
pub record ScaleSpec : Type 0 where
  pub execution : ExecutionSpec
  pub target : WorkloadTargetRef
  pub replicas : ℤ

pub record ResourceMap : Type 0 where
  pub cpu : Option String
  pub memory : Option String

pub record WorkloadResourcesSpec : Type 0 where
  pub workload_kind : String
  pub namespace : String
  pub name : String
  pub container : String
  pub requests : Option ResourceMap
  pub limits : Option ResourceMap

pub record SelfUpdateSpec : Type 0 where
  pub target_version : Option String
  pub reason : Option String
  pub strategy : Option String

pub record UpdateAgentSpec : Type 0 where
  pub image : String

pub record ResourceYamlSpec : Type 0 where
  pub api_version : String
  pub kind : String
  pub namespace : Option String
  pub name : String

pub record PostgresqlDiagnosticSpec : Type 0 where
  pub namespace : String
  pub service_name : Option String
  pub pod_selector : Option String
  pub secret_name : Option String

-- The legacy form of a scale command runs for real unless it says otherwise.
abbrev pub default_execute_execution_spec : ExecutionSpec
default_execute_execution_spec = record {
  mode = execute;
  approval_id = none;
  preview_resource_version = none;
}
