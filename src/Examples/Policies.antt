-- ===== src/Examples/Policies.antt =====
-- The statuses of the policies, and the admission by them, at the small cluster.
use hub_kubernetes_agent.Operator.Namespaces.{
  is_eligible, namespace_action_mode_enabled, namespace_is_excluded,
}
use hub_kubernetes_agent.Prelude.{eq_ignore_ascii_case}
use hub_kubernetes_agent.Model.Policy.{
  policy_status_is_stale, policy_resource_is_supported, policy_action_is_supported,
}
use hub_kubernetes_agent.Prelude.{
  ap, sym, ◌∙◌, ◌↔◌, is_empty, All, arith, ◌≡◌, refl, none, some, [], Memᴰ, true, false, ok,
  contains,
}
use hub_kubernetes_agent.Model.Policy.{ActionPolicy, policy_action_targets_workload}
use hub_kubernetes_agent.Model.Quantity.{policy_limits_are_valid}
use hub_kubernetes_agent.Operator.Namespaces.{effective_namespaces}
use hub_kubernetes_agent.Operator.Namespaces.Effective.{Eligible, effective_namespaces-Eligible}
use hub_kubernetes_agent.Operator.Status.{build_policy_status, action_allowed, resource_allowed}
use hub_kubernetes_agent.Operator.Status.Ready.{
  IsServed, build_policy_status-IsServed, second_round-Ready, with_status,
}
use hub_kubernetes_agent.Executor.Policy.{
  EffectivePolicy, namespace_is_effective_for_command, condition_true, select_effective_policy,
  select_cluster_action_policy, policy_rejection_reason_for_command,
}
use hub_kubernetes_agent.Executor.Policy.Allowed.{Allows, rejection_none-Allows}
use hub_kubernetes_agent.Executor.Policy.Sound.{
  Admits, IsFresh, select_effective_policy-Admits, Admits-select_effective_policy,
  select_cluster_action_policy-Allows,
}
use hub_kubernetes_agent.Executor.Drain.Plan.{classify_pods_on_node}
use hub_kubernetes_agent.Executor.Drain.Evictions.{IsPlanned, classify_pods_on_node-IsPlanned}
use hub_kubernetes_agent.Admission.{
  some_same, Round, IsBacked, IsWritten, written_status, select_effective_policy-IsBacked,
}
use hub_kubernetes_agent.Examples.Data.{
  namespaces, excluded, plain_policy, first_status, granted, round, served_policy, policies,
  effective_policy, pods,
}

selected :
    select_effective_policy "apps" "scale" (some "Deployment") none 50_000 90_000 policies
    ≡ ok effective_policy
unfolding select_effective_policy build_policy_status effective_namespaces policy_status_is_stale
    condition_true eq_ignore_ascii_case is_eligible namespace_is_excluded
    namespace_action_mode_enabled policy_action_is_supported policy_action_targets_workload
    policy_resource_is_supported policy_limits_are_valid namespace_is_effective_for_command
    policy_rejection_reason_for_command
selected = refl

written : (policy : ActionPolicy) → Memᴰ policy policies → IsWritten 90_000 policy
written policy (Memᴰ.head same) status h = cc (ap (λ p. p.status) same)
written policy (Memᴰ.tail (Memᴰ.tail m)) status h = elim m [ ]
written policy (Memᴰ.tail (Memᴰ.head same)) status h =
    (round, some_same status (written_status 90_000 round) (sym h ∙ ap (λ p. p.status) same))

select_effective_policy-IsBacked_example :
    (r : Round) × (effective_policy.status ≡ written_status 90_000 r)
    × IsBacked "apps" "scale" 50_000 90_000 r
select_effective_policy-IsBacked_example =
    select_effective_policy-IsBacked "apps" "scale" (some "Deployment") none 50_000 90_000 policies
      effective_policy written selected

select_effective_policy-Admits_example :
    Memᴰ served_policy policies
    × (served_policy.metadata.name ≡ some "global")
    × Admits "apps" "scale"
        (some "Deployment")
        none
        50_000
        90_000
        served_policy
        (written_status 90_000 round)
select_effective_policy-Admits_example =
    select_effective_policy-Admits "apps" "scale" (some "Deployment") none 50_000 90_000 policies
      effective_policy selected

served_policy-IsFresh : IsFresh served_policy (written_status 90_000 round) 50_000 90_000
unfolding build_policy_status condition_true eq_ignore_ascii_case effective_namespaces is_eligible
    namespace_is_excluded namespace_action_mode_enabled policy_action_is_supported
    policy_action_targets_workload policy_resource_is_supported policy_limits_are_valid
    policy_status_is_stale
served_policy-IsFresh = record {
  of_policy = refl;
  recent = (40_000, refl, omega arith);
  ready = refl;
}

no_rejection :
    policy_rejection_reason_for_command served_policy "scale" (some "Deployment") none ≡ none
unfolding policy_rejection_reason_for_command policy_action_is_supported
    policy_action_targets_workload policy_resource_is_supported
no_rejection = refl

served_policy-Allows : Allows served_policy "scale" (some "Deployment") none
served_policy-Allows =
    rejection_none-Allows served_policy "scale" (some "Deployment") none no_rejection

served_policy-Admits :
    Admits "apps" "scale"
      (some "Deployment")
      none
      50_000
      90_000
      served_policy
      (written_status 90_000 round)
unfolding build_policy_status effective_namespaces namespace_is_effective_for_command is_eligible
    namespace_is_excluded namespace_action_mode_enabled
served_policy-Admits = record {
  named = ("global", refl);
  fresh = served_policy-IsFresh;
  effective = refl;
  allows = served_policy-Allows;
}

Admits-select_effective_policy_example :
    (e : EffectivePolicy) × (select_effective_policy "apps" "scale"
        (some "Deployment")
        none
        50_000
        90_000
        policies
      ≡ ok e)
Admits-select_effective_policy_example =
    Admits-select_effective_policy "apps" "scale" (some "Deployment") none 50_000 90_000 policies
      served_policy (written_status 90_000 round) (Memᴰ.tail (Memᴰ.head refl)) served_policy-Admits

selected_at_cluster :
    select_cluster_action_policy policies "drain_node" 50_000 90_000 ≡ ok effective_policy
unfolding select_cluster_action_policy build_policy_status policy_status_is_stale condition_true
    eq_ignore_ascii_case effective_namespaces is_eligible namespace_is_excluded
    namespace_action_mode_enabled policy_action_is_supported policy_action_targets_workload
    policy_resource_is_supported policy_limits_are_valid policy_rejection_reason_for_command
selected_at_cluster = refl

select_cluster_action_policy-Allows_example :
    Memᴰ served_policy policies
    × IsFresh served_policy (written_status 90_000 round) 50_000 90_000
    × Allows served_policy "drain_node" none none
    × (policy_action_targets_workload "drain_node" ≡ false)
select_cluster_action_policy-Allows_example =
    select_cluster_action_policy-Allows policies "drain_node" 50_000 90_000 effective_policy
      selected_at_cluster

build_policy_status-IsServed_example :
    (condition_true (written_status 90_000 round).conditions "Ready" ≡ true)
    ↔ IsServed (with_status plain_policy first_status) namespaces excluded granted 40_000 90_000
build_policy_status-IsServed_example =
    build_policy_status-IsServed (with_status plain_policy first_status) namespaces excluded granted
      40_000 90_000

effective_namespaces-Eligible_example :
    (contains (effective_namespaces namespaces excluded) "apps" ≡ true)
    ↔ Eligible namespaces excluded "apps"
effective_namespaces-Eligible_example = effective_namespaces-Eligible namespaces excluded "apps"

one_eligible : is_empty (effective_namespaces namespaces excluded) ≡ false
unfolding effective_namespaces is_eligible namespace_is_excluded namespace_action_mode_enabled
one_eligible = refl

actions_pass : action_allowed plain_policy ≡ true
unfolding action_allowed policy_action_is_supported
actions_pass = refl

resources_pass : resource_allowed plain_policy ≡ true
unfolding resource_allowed policy_action_targets_workload policy_resource_is_supported
resources_pass = refl

limits_pass : policy_limits_are_valid plain_policy.spec.limits ≡ true
unfolding policy_limits_are_valid
limits_pass = refl

second_round-Ready_example :
    condition_true
      (build_policy_status
        (with_status plain_policy
          (build_policy_status plain_policy [] excluded granted 10_000 90_000))
        namespaces
        excluded
        granted
        40_000
        90_000).conditions
      "Ready"
    ≡ true
second_round-Ready_example =
    second_round-Ready plain_policy [] namespaces excluded granted granted 10_000 40_000 90_000
      (omega arith) one_eligible refl refl actions_pass resources_pass limits_pass

classify_pods_on_node-IsPlanned_example :
    All
      (λ p. IsPlanned "node-1" true pods p.0 p.1)
      (classify_pods_on_node "node-1" pods true).drainable
classify_pods_on_node-IsPlanned_example = classify_pods_on_node-IsPlanned "node-1" pods true
