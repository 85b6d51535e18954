-- ===== src/Executor/Policy.antt =====
-- executor.rs: which policy, if any, admits a command.
pub mod Loop
pub mod Allowed
pub mod Sound
use text.Mathlib.Text.{◌==◌}
use hub_kubernetes_agent.Prelude.{
  ℕ, String, Option, none, some, List, [], ◌∷◌, ◌++◌, Bool, not, ◌&&◌, ◌||◌, if◌then◌else◌, ◌<>◌,
  any, all, is_empty, contains, join, eq_ignore_ascii_case, Result, ok, err,
}
use hub_kubernetes_agent.Model.Policy.{
  ActionPolicy, PolicyStatus, Condition, policy_action_is_supported, policy_action_targets_workload,
  policy_resource_is_supported, policy_status_is_stale,
}
use hub_kubernetes_agent.Model.Command.{WorkloadResourcesSpec}
use hub_kubernetes_agent.Executor.Limits.{policy_limits_violation_reason}

pub record EffectivePolicy : Type 0 where
  pub name : String
  pub policy : ActionPolicy
  pub status : PolicyStatus

abbrev pub update_agent_namespace : String
update_agent_namespace = "sentinella"

unfoldable pub condition_true : List Condition → String → Bool
condition_true conditions condition_type =
    any
      (λ condition.
        (condition.kind == condition_type) && eq_ignore_ascii_case condition.status "true")
      conditions

unfoldable pub namespace_is_effective_for_command : String → String → List String → Bool
namespace_is_effective_for_command namespace command_kind effective_namespaces =
    contains effective_namespaces namespace
    || (command_kind == "update_agent") && (namespace == update_agent_namespace)

-- The part on the workload kind and the declared resources.
unfoldable pub resource_rejection : ActionPolicy → Option String → Option String
resource_rejection policy none = some "is missing a workload target kind"
resource_rejection policy (some target_kind) =
    if not (all (λ resource. policy_resource_is_supported resource) policy.spec.allowed_resources)
      || is_empty policy.spec.allowed_resources
    then some "does not declare any supported workload resources"
    else if not (contains policy.spec.allowed_resources target_kind)
    then some ("does not allow resource " <> target_kind)
    else none

-- The part on the limits, for the two commands that set resources.
unfoldable pub limits_rejection : ActionPolicy → Option WorkloadResourcesSpec → Option String
limits_rejection policy none = some "is missing a workload resources spec"
limits_rejection policy (some spec) = policy_limits_violation_reason policy.spec.limits spec

abbrev pub sets_resources : String → Bool
sets_resources command_kind =
    (command_kind == "preview_workload_resources") || (command_kind == "apply_workload_resources")

unfoldable pub policy_rejection_reason_for_command :
    ActionPolicy → String → Option String → Option WorkloadResourcesSpec → Option String
unfolding resource_rejection limits_rejection
policy_rejection_reason_for_command policy command_kind target_kind resource_spec =
    if not (all (λ action. policy_action_is_supported action) policy.spec.allowed_actions)
      || is_empty policy.spec.allowed_actions
    then some "does not declare any supported actions"
    else if not (contains policy.spec.allowed_actions command_kind)
    then some ("does not allow action " <> command_kind)
    else let limits =
        if sets_resources command_kind then limits_rejection policy resource_spec else none in
      if policy_action_targets_workload command_kind
      then elim (resource_rejection policy target_kind) [
        | some reason ↦ some reason
        | none ↦ limits
      ]
      else limits

-- What a round of the selection loops does with a policy: `continue`, `continue` with one more
-- reason, or return.
pub data Verdict : Type 0 where
  skip : Verdict
  reject : String → Verdict
  accept : PolicyStatus → Verdict

-- The checks of name, status and freshness; `next` is what follows them.
unfoldable pub check_fresh : ℕ → ℕ → (String → PolicyStatus → Verdict) → ActionPolicy → Verdict
check_fresh now stale_after_ms next policy = elim policy.metadata.name [
  | none ↦ skip
  | some name ↦ elim policy.status [
    | none ↦ reject ("policy " <> name <> " has no status")
    | some status ↦ elim status.last_reconciled_at_ms [
      | none ↦ reject ("policy " <> name <> " status has no freshness timestamp")
      | some last ↦
          if policy_status_is_stale (some last) now stale_after_ms
          then reject ("policy " <> name <> " status is stale")
          else if not (condition_true status.conditions "Ready")
          then reject ("policy " <> name <> " is not Ready")
          else next name status
    ]
  ]
]

abbrev reject_or_accept : Option String → String → PolicyStatus → Verdict
reject_or_accept (some reason) name status = reject ("policy " <> name <> " " <> reason)
reject_or_accept none name status = accept status

-- A round of `ensure_effective_policy_allows`.
unfoldable pub judge :
    String → String → Option String → Option WorkloadResourcesSpec → ℕ → ℕ → ActionPolicy → Verdict
unfolding check_fresh
judge namespace command_kind target_kind resource_spec now stale_after_ms policy =
    check_fresh now stale_after_ms
      (λ name status.
        if not
          (namespace_is_effective_for_command namespace command_kind status.effective_namespaces)
        then skip
        else reject_or_accept
            (policy_rejection_reason_for_command policy command_kind target_kind resource_spec) name
            status)
      policy

-- A round of `select_cluster_action_policy`.
unfoldable pub judge_cluster : String → ℕ → ℕ → ActionPolicy → Verdict
unfolding check_fresh
judge_cluster command_kind now stale_after_ms policy =
    check_fresh now stale_after_ms
      (λ name status.
        reject_or_accept (policy_rejection_reason_for_command policy command_kind none none) name
          status)
      policy

abbrev reasons_or : String → List String → String
reasons_or default [] = default
reasons_or default (r ∷ rs) = join "; " (r ∷ rs)

unfoldable pub name_of : ActionPolicy → String
name_of policy = elim policy.metadata.name [ none ↦ "" | some name ↦ name ]

-- The loop over the listed policies: the first that is accepted, or the reasons.
unfoldable pub select :
    (ActionPolicy → Verdict)
    → (List String → String)
    → List String
    → List ActionPolicy
    → Result String EffectivePolicy
unfolding name_of
select verdict failure reasons [] = err (failure reasons)
select verdict failure reasons (policy ∷ rest) = elim (verdict policy) [
  | skip ↦ select verdict failure reasons rest
  | reject reason ↦ select verdict failure (reasons ++ reason ∷ []) rest
  | accept status ↦ ok (record { name = name_of policy; policy = policy; status = status })
]

abbrev namespace_failure : String → List String → String
namespace_failure namespace reasons =
    "namespace "
    <> namespace
    <> " is not eligible for action: "
    <> reasons_or "no Ready policy matched the namespace" reasons

abbrev cluster_failure : String → List String → String
cluster_failure command_kind reasons =
    "cluster action "
    <> command_kind
    <> " is not eligible: "
    <> reasons_or "no Ready policy matched the cluster action" reasons

-- `ensure_effective_policy_allows`, behind the listing of the policies and the clock.
unfoldable pub select_effective_policy :
    String
    → String
    → Option String
    → Option WorkloadResourcesSpec
    → ℕ
    → ℕ
    → List ActionPolicy
    → Result String EffectivePolicy
unfolding select judge
select_effective_policy namespace command_kind target_kind resource_spec now stale_after_ms
      policies =
    select (judge namespace command_kind target_kind resource_spec now stale_after_ms)
      (namespace_failure namespace) [] policies

unfoldable pub select_cluster_action_policy :
    List ActionPolicy → String → ℕ → ℕ → Result String EffectivePolicy
unfolding select judge_cluster
select_cluster_action_policy policies command_kind now stale_after_ms =
    select (judge_cluster command_kind now stale_after_ms) (cluster_failure command_kind) []
      policies
