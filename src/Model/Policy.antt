-- ===== src/Model/Policy.antt =====
-- model.rs: the action policy resource, its status, the lists of supported actions and resources,
-- and the freshness of a status. Times are milliseconds; a u128 that is only compared is a ℕ.
use hub_kubernetes_agent.Prelude.{
  ℕ, ◌-◌, String, Option, none, some, List, [], ◌∷◌, Bool, true, ℤ, ltb, contains,
}
use hub_kubernetes_agent.Model.Objects.{ObjectMeta, LabelSelector}

pub record Condition : Type 0 where
  pub kind : String
  pub status : String
  pub reason : Option String
  pub message : Option String
  pub observed_generation : Option ℤ
  pub last_transition_time_ms : Option ℕ

pub record PolicyLimits : Type 0 where
  pub max_cpu_limit : Option String
  pub max_memory_limit : Option String

pub record PolicySpec : Type 0 where
  pub namespace_selector : Option LabelSelector
  pub allowed_actions : List String
  pub allowed_resources : List String
  pub approval_required : Bool
  pub limits : Option PolicyLimits

pub record PolicyStatus : Type 0 where
  pub effective_namespaces : List String
  pub conditions : List Condition
  pub observed_generation : Option ℤ
  pub last_reconciled_at_ms : Option ℕ
  pub stale : Bool

pub record ActionPolicy : Type 0 where
  pub metadata : ObjectMeta
  pub spec : PolicySpec
  pub status : Option PolicyStatus

-- `saturating_sub` is the subtraction of ℕ.
unfoldable pub policy_status_is_stale : Option ℕ → ℕ → ℕ → Bool
policy_status_is_stale none now_ms stale_after_ms = true
policy_status_is_stale (some last) now_ms stale_after_ms = ltb stale_after_ms (now_ms - last)

abbrev pub supported_actions : List String
supported_actions =
    "diagnose_postgresql" ∷ "get_resource_yaml" ∷ "drain_node" ∷ "preview_workload_resources"
    ∷ "apply_workload_resources" ∷ "rollout_restart" ∷ "scale" ∷ "self_update" ∷ "update_agent" ∷ []

abbrev pub workload_actions : List String
workload_actions =
    "preview_workload_resources" ∷ "apply_workload_resources" ∷ "rollout_restart" ∷ "scale" ∷ []

abbrev pub supported_resources : List String
supported_resources = "Deployment" ∷ "StatefulSet" ∷ "DaemonSet" ∷ []

unfoldable pub policy_action_is_supported : String → Bool
policy_action_is_supported action = contains supported_actions action

unfoldable pub policy_action_targets_workload : String → Bool
policy_action_targets_workload action = contains workload_actions action

unfoldable pub policy_resource_is_supported : String → Bool
policy_resource_is_supported resource = contains supported_resources resource
