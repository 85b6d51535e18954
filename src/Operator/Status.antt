-- ===== src/Operator/Status.antt =====
-- operator.rs: the status that the operator writes to an action policy.
pub mod Ready
use hub_kubernetes_agent.Prelude.{
  ℕ, String, Option, some, List, [], ◌∷◌, ◌++◌, Bool, true, not, ◌&&◌, ℤ, if◌then◌else◌, ◌<>◌, any,
  all, is_empty, is_none, is_some, and_then,
}
use hub_kubernetes_agent.Model.Objects.{Namespace}
use hub_kubernetes_agent.Model.Policy.{
  ActionPolicy, PolicyStatus, Condition, policy_action_is_supported, policy_action_targets_workload,
  policy_resource_is_supported, policy_status_is_stale,
}
use hub_kubernetes_agent.Model.Quantity.{policy_limits_are_valid}
use hub_kubernetes_agent.Operator.Namespaces.{effective_namespaces}

pub record BindingReconcileOutcome : Type 0 where
  pub permission_granted : Bool
  pub reconciliation_error : Option String

unfoldable pub policy_condition :
    String → Bool → Option String → Option String → Option ℤ → ℕ → Condition
policy_condition kind is_true reason message observed_generation now_ms = record {
  kind = kind;
  status = if is_true then "True" else "False";
  reason = reason;
  message = message;
  observed_generation = observed_generation;
  last_transition_time_ms = some now_ms;
}

-- The facts that the conditions report, as `build_policy_status` computes them.
pub record PolicyFacts : Type 0 where
  pub policy_matched : Bool
  pub namespaces_eligible : Bool
  pub permission_granted : Bool
  pub action_allowed : Bool
  pub resource_allowed : Bool
  pub limits_satisfied : Bool
  pub reconciliation_error : Option String
  pub stale : Bool

unfoldable pub is_ready : PolicyFacts → Bool
is_ready f =
    f.policy_matched
    && f.namespaces_eligible
    && f.permission_granted
    && f.action_allowed
    && f.resource_allowed
    && f.limits_satisfied
    && not f.stale
    && is_none f.reconciliation_error

unfoldable pub build_policy_conditions : ActionPolicy → PolicyFacts → Bool → ℕ → List Condition
unfolding policy_condition
build_policy_conditions policy f ready now_ms =
    let generation = policy.metadata.generation in
    (policy_condition "NamespacesEligible" f.namespaces_eligible
        (some (
          if f.namespaces_eligible then "eligible_namespaces_found" else "all_namespaces_excluded"))
        (some (
          if f.namespaces_eligible
          then "At least one namespace is enabled for action mode after applying the operator exclude list"
          else "No namespaces are enabled for action-mode reconciliation"))
        generation now_ms
      ∷ policy_condition "PolicyMatched" f.policy_matched (some "global_exclude_list_active")
          (some "Policy is evaluated under the operator-managed action-mode model") generation
          now_ms
      ∷ policy_condition "PermissionGranted" f.permission_granted
          (some (
            if f.permission_granted
            then "rolebinding_reconciled"
            else "rolebinding_reconcile_failed"))
          (some (
            if f.permission_granted
            then "Managed RoleBindings were reconciled successfully"
            else "Managed RoleBindings are not fully reconciled"))
          generation now_ms
      ∷ policy_condition "ActionAllowed" f.action_allowed
          (some (if f.action_allowed then "action_allowed" else "action_not_allowed"))
          (some (
            if f.action_allowed
            then "At least one declared action is supported"
            else "No supported actions are declared"))
          generation now_ms
      ∷ policy_condition "ResourceAllowed" f.resource_allowed
          (some (if f.resource_allowed then "resource_allowed" else "resource_not_allowed"))
          (some (
            if f.resource_allowed
            then "Declared resources are compatible with declared actions"
            else "Declared resources do not permit the declared actions"))
          generation now_ms
      ∷ policy_condition "LimitsSatisfied" f.limits_satisfied
          (some (if f.limits_satisfied then "limits_satisfied" else "limits_exceeded"))
          (some (
            if f.limits_satisfied
            then "Declared limits are valid"
            else "Declared limits are invalid"))
          generation now_ms
      ∷ policy_condition "ReconciliationError" (is_some f.reconciliation_error)
          (some (if is_some f.reconciliation_error then "reconcile_error" else "reconcile_ok"))
          (and_then f.reconciliation_error (λ msg. some ("Reconciliation error: " <> msg)))
          generation now_ms
      ∷ policy_condition "Stale" f.stale (some (if f.stale then "status_stale" else "status_fresh"))
          (some (if f.stale then "Policy status is stale" else "Policy status is fresh")) generation
          now_ms
      ∷ [])
    ++ policy_condition "Ready" ready (some (if ready then "ready" else "not_ready"))
        (some (
          if ready
          then "Policy is Ready for global agent action checks"
          else "Policy is not Ready for global agent action checks"))
        generation now_ms
      ∷ []

unfoldable pub action_allowed : ActionPolicy → Bool
action_allowed policy =
    all (λ action. policy_action_is_supported action) policy.spec.allowed_actions
    && not (is_empty policy.spec.allowed_actions)

unfoldable pub resource_allowed : ActionPolicy → Bool
resource_allowed policy =
    if any (λ action. policy_action_targets_workload action) policy.spec.allowed_actions
    then not (is_empty policy.spec.allowed_resources)
      && all (λ resource. policy_resource_is_supported resource) policy.spec.allowed_resources
    else true

unfoldable pub policy_facts :
    ActionPolicy → List Namespace → List String → BindingReconcileOutcome → ℕ → ℕ → PolicyFacts
unfolding action_allowed resource_allowed
policy_facts policy namespaces excluded outcome now_ms stale_after_ms = record {
  policy_matched = true;
  namespaces_eligible = not (is_empty (effective_namespaces namespaces excluded));
  permission_granted = outcome.permission_granted;
  action_allowed = action_allowed policy;
  resource_allowed = resource_allowed policy;
  limits_satisfied = policy_limits_are_valid policy.spec.limits;
  reconciliation_error = outcome.reconciliation_error;
  stale =
      policy_status_is_stale (and_then policy.status (λ status. status.last_reconciled_at_ms))
        now_ms stale_after_ms;
}

unfoldable pub build_policy_status :
    ActionPolicy → List Namespace → List String → BindingReconcileOutcome → ℕ → ℕ → PolicyStatus
unfolding policy_facts is_ready build_policy_conditions
build_policy_status policy namespaces excluded outcome now_ms stale_after_ms =
    let facts = policy_facts policy namespaces excluded outcome now_ms stale_after_ms in
    record {
      effective_namespaces = effective_namespaces namespaces excluded;
      conditions = build_policy_conditions policy facts (is_ready facts) now_ms;
      observed_generation = policy.metadata.generation;
      last_reconciled_at_ms = some now_ms;
      stale = facts.stale;
    }
