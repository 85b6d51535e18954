-- ===== src/Executor/Rollout/Verify.antt =====
-- executor.rs: when a rollout counts as complete, for each kind of workload.
use text.Mathlib.Text.{◌==◌}
use hub_kubernetes_agent.Prelude.{
  String, Option, [], ◌∷◌, Bool, not, ◌&&◌, ◌||◌, ℤ, pos, leb_ℤ, if◌then◌else◌, unwrap_or,
}
use hub_kubernetes_agent.Model.Json.{Json, bool, number, obj, optional_number}
use hub_kubernetes_agent.Executor.Api.{Workload}

abbrev pub is_workload_kind : String → Bool
is_workload_kind kind = (kind == "Deployment") || (kind == "StatefulSet") || (kind == "DaemonSet")

-- A verdict, and the value that reports it; its field `ready` is the verdict.
pub record Observed : Type 0 where
  pub ready : Bool
  pub value : Json

abbrev or_zero : Option ℤ → ℤ
or_zero n = unwrap_or n (pos 0)

unfoldable pub deployment_ready : Workload → Bool
deployment_ready w =
    leb_ℤ (unwrap_or w.spec_replicas (pos 1)) (or_zero w.updated_replicas)
    && leb_ℤ (unwrap_or w.spec_replicas (pos 1)) (or_zero w.available_replicas)
    && leb_ℤ (or_zero w.generation) (or_zero w.observed_generation)

unfoldable pub statefulset_ready : Workload → Bool
statefulset_ready w =
    leb_ℤ (unwrap_or w.spec_replicas (pos 1)) (or_zero w.updated_replicas)
    && leb_ℤ (unwrap_or w.spec_replicas (pos 1)) (or_zero w.ready_replicas)
    && leb_ℤ (or_zero w.generation) (or_zero w.observed_generation)

unfoldable pub daemonset_ready : Workload → Bool
daemonset_ready w =
    not (leb_ℤ w.desired_number_scheduled (pos 0))
    && leb_ℤ w.desired_number_scheduled (or_zero w.updated_number_scheduled)
    && leb_ℤ w.desired_number_scheduled (or_zero w.number_available)
    && leb_ℤ (or_zero w.generation) (or_zero w.observed_generation)

unfoldable pub verify_deployment_rollout : Workload → Observed
unfolding deployment_ready
verify_deployment_rollout w = record {
  ready = deployment_ready w;
  value = obj (
      ("ready", bool (deployment_ready w))
      ∷ ("replicas", optional_number w.replicas)
      ∷ ("updated_replicas", number (or_zero w.updated_replicas))
      ∷ ("available_replicas", number (or_zero w.available_replicas))
      ∷ ("ready_replicas", number (or_zero w.ready_replicas))
      ∷ ("observed_generation", number (or_zero w.observed_generation))
      ∷ []);
}

unfoldable pub verify_statefulset_rollout : Workload → Observed
unfolding statefulset_ready
verify_statefulset_rollout w = record {
  ready = statefulset_ready w;
  value = obj (
      ("ready", bool (statefulset_ready w))
      ∷ ("replicas", number (or_zero w.replicas))
      ∷ ("updated_replicas", number (or_zero w.updated_replicas))
      ∷ ("ready_replicas", number (or_zero w.ready_replicas))
      ∷ ("current_replicas", number (or_zero w.current_replicas))
      ∷ ("observed_generation", number (or_zero w.observed_generation))
      ∷ []);
}

unfoldable pub verify_daemonset_rollout : Workload → Observed
unfolding daemonset_ready
verify_daemonset_rollout w = record {
  ready = daemonset_ready w;
  value = obj (
      ("ready", bool (daemonset_ready w))
      ∷ ("desired_number_scheduled", number w.desired_number_scheduled)
      ∷ ("current_number_scheduled", number w.current_number_scheduled)
      ∷ ("number_ready", number w.number_ready)
      ∷ ("updated_number_scheduled", optional_number w.updated_number_scheduled)
      ∷ ("number_available", optional_number w.number_available)
      ∷ ("observed_generation", optional_number w.observed_generation)
      ∷ []);
}

unfoldable pub rollout_of : String → Workload → Observed
unfolding verify_deployment_rollout verify_statefulset_rollout verify_daemonset_rollout
rollout_of kind w =
    if kind == "Deployment"
    then verify_deployment_rollout w
    else if kind == "StatefulSet"
    then verify_statefulset_rollout w
    else verify_daemonset_rollout w
