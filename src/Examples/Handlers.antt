-- ===== src/Examples/Handlers.antt =====
-- The handlers at the small cluster.
use hub_kubernetes_agent.Model.Result.{CommandResult}
use hub_kubernetes_agent.Executor.Api.{
  Cluster, Event, History, finish, list_policies, get_workload, get_scale, patch_workload,
  patch_scale, get_node, list_pods, patch_node, evict, sleep, list_objects, get_object, diagnose,
}
use hub_kubernetes_agent.Executor.Clock.{IsClock, LosesAtMost}
use hub_kubernetes_agent.Executor.Drain.Finishes.{drain_node-finishes}
use hub_kubernetes_agent.Executor.Rollout.Finishes.{rollout_restart-finishes}
use hub_kubernetes_agent.Executor.Rollout.Verify.{rollout_of}
use hub_kubernetes_agent.Model.Quantity.{policy_limits_are_valid}
use hub_kubernetes_agent.Operator.Namespaces.{
  namespace_action_mode_enabled, is_eligible, namespace_is_excluded, effective_namespaces,
}
use hub_kubernetes_agent.Prelude.{◌∷◌, ◌≤◌, ℕ, ◌+◌, arith, eq_ignore_ascii_case}
use hub_kubernetes_agent.Executor.Policy.{
  condition_true, namespace_is_effective_for_command, policy_rejection_reason_for_command,
}
use hub_kubernetes_agent.Executor.Gate.{stale_after_ms}
use hub_kubernetes_agent.Model.Policy.{
  policy_action_targets_workload, policy_status_is_stale, policy_resource_is_supported,
  policy_action_is_supported,
}
use hub_kubernetes_agent.Prelude.{◌≡◌, none, some, [], false, trim}
use hub_kubernetes_agent.Executor.Gate.{is_preview}
use hub_kubernetes_agent.Executor.Gate.Quiet.{IsQuiet}
use hub_kubernetes_agent.Executor.Gate.Authorized.{IsAuthorized}
use hub_kubernetes_agent.Executor.Scale.{scale_workload}
use hub_kubernetes_agent.Executor.Scale.Live.{IsScaleAllowed, scale_workload-IsScaleAllowed}
use hub_kubernetes_agent.Executor.Rollout.{rollout_restart}
use hub_kubernetes_agent.Executor.Rollout.Live.{rollout_restart-IsAuthorized}
use hub_kubernetes_agent.Executor.Drain.{
  drain_node, drain_listed, drain_pods, cordon, evict_all, evict_one, wait_drained, list_node_pods,
}
use hub_kubernetes_agent.Executor.Drain.Plan.{
  classify_pods_on_node, classify_pod, pod_is_mirror, pod_owner_kinds, drain_timeout_duration,
  drain_delete_options,
}
use hub_kubernetes_agent.Executor.Drain.Live.{IsDrainAllowed, drain_node-IsDrainAllowed}
use hub_kubernetes_agent.Executor.Drain.Justified.{AllJustified, drain_node-AllJustified}
use hub_kubernetes_agent.Operator.Status.{build_policy_status}
use hub_kubernetes_agent.Executor.Policy.{select_effective_policy, select_cluster_action_policy}
use hub_kubernetes_agent.Examples.Data.{
  slept, ticking, cluster, cfg, scale_spec, restart_spec, drain_spec,
}

pub scaled : ¬ IsQuiet (scale_workload cluster cfg "cmd-1" scale_spec []).1
unfolding scale_workload select_effective_policy build_policy_status policy_status_is_stale
    stale_after_ms condition_true eq_ignore_ascii_case effective_namespaces is_eligible
    namespace_is_excluded namespace_action_mode_enabled policy_action_is_supported
    policy_action_targets_workload policy_resource_is_supported policy_limits_are_valid
    namespace_is_effective_for_command policy_rejection_reason_for_command
scaled = λ quiet. cc quiet.0

scale_workload-IsScaleAllowed_example : IsScaleAllowed cluster cfg scale_spec []
scale_workload-IsScaleAllowed_example =
    scale_workload-IsScaleAllowed cluster cfg "cmd-1" scale_spec [] tt scaled

restarted : ¬ IsQuiet (rollout_restart cluster cfg "cmd-2" 130 restart_spec []).1
unfolding rollout_restart select_effective_policy build_policy_status policy_status_is_stale
    stale_after_ms condition_true eq_ignore_ascii_case effective_namespaces is_eligible
    namespace_is_excluded namespace_action_mode_enabled policy_action_is_supported
    policy_action_targets_workload policy_resource_is_supported policy_limits_are_valid
    namespace_is_effective_for_command policy_rejection_reason_for_command rollout_of
restarted = λ quiet. cc

rollout_restart-IsAuthorized_example :
    (is_preview restart_spec.execution.mode ≡ false)
    × IsAuthorized cluster cfg "apps" "rollout_restart" (some "Deployment") none []
rollout_restart-IsAuthorized_example =
    rollout_restart-IsAuthorized cluster cfg "cmd-2" 130 restart_spec [] tt restarted

drained : ¬ IsQuiet (drain_node cluster cfg "cmd-3" 6 drain_spec []).1
unfolding drain_node drain_listed drain_pods cordon evict_all evict_one wait_drained list_node_pods
    select_cluster_action_policy build_policy_status trim classify_pods_on_node
    policy_status_is_stale stale_after_ms condition_true eq_ignore_ascii_case effective_namespaces
    is_eligible namespace_is_excluded namespace_action_mode_enabled policy_action_is_supported
    policy_action_targets_workload policy_resource_is_supported policy_limits_are_valid
    policy_rejection_reason_for_command drain_timeout_duration drain_delete_options classify_pod
    pod_is_mirror pod_owner_kinds
drained = λ quiet. cc quiet.1.1.1.0

drain_node-IsDrainAllowed_example : IsDrainAllowed cluster cfg drain_spec []
drain_node-IsDrainAllowed_example =
    drain_node-IsDrainAllowed cluster cfg "cmd-3" 6 drain_spec [] tt drained

drain_node-AllJustified_example :
    AllJustified cluster
      (trim drain_spec.node_name)
      false
      (drain_node cluster cfg "cmd-3" 6 drain_spec []).1
drain_node-AllJustified_example = drain_node-AllJustified cluster cfg "cmd-3" 6 drain_spec [] tt

slept_forward : (event : Event) (h : History) → slept h ≤ slept (event ∷ h)
slept_forward (sleep ms) h = omega arith
slept_forward list_policies h = omega arith
slept_forward (get_workload kind namespace name) h = omega arith
slept_forward (get_scale namespace name) h = omega arith
slept_forward (patch_workload kind namespace name patch dry_run) h = omega arith
slept_forward (patch_scale namespace name patch dry_run) h = omega arith
slept_forward (get_node name) h = omega arith
slept_forward (list_pods name) h = omega arith
slept_forward (patch_node name patch) h = omega arith
slept_forward (evict namespace name grace) h = omega arith
slept_forward (list_objects resource namespace) h = omega arith
slept_forward (get_object group version kind namespace name) h = omega arith
slept_forward (diagnose namespace) h = omega arith

pub slept-IsClock : IsClock slept
slept-IsClock = record { forward = slept_forward; waits = λ ms h. omega arith }

drain_node-finishes_example :
    (result : CommandResult) × ((finish (drain_node cluster cfg "cmd-3" 721 drain_spec [])).0
      ≡ some result)
drain_node-finishes_example =
    drain_node-finishes cluster cfg "cmd-3" 720 drain_spec [] slept-IsClock (omega arith)

-- A wall clock that is set back by three seconds once.
abbrev set_back : History → ℕ
set_back [] = 3_000
set_back (event ∷ h) = slept (event ∷ h)

set_back_band : (h : History) → (slept h ≤ set_back h) × (set_back h ≤ slept h + 3_000)
set_back_band [] = (omega arith, omega arith)
set_back_band (event ∷ h) = (omega arith, omega arith)

pub set_back-LosesAtMost : LosesAtMost 3_000 slept set_back
set_back-LosesAtMost = record {
  loses = λ h later e.
      let before = (set_back_band h).1 in let after = (set_back_band later).0 in omega arith;
}

abbrev pub set_back_cluster : Cluster
set_back_cluster = record ticking { now_ms = set_back }

rollout_restart-finishes_example :
    (result : CommandResult) × ((finish
        (rollout_restart set_back_cluster cfg "cmd-2" 63 restart_spec [])).0
      ≡ some result)
rollout_restart-finishes_example =
    rollout_restart-finishes set_back_cluster cfg "cmd-2" 3_000 62 restart_spec [] slept-IsClock
      set_back-LosesAtMost (omega arith)
