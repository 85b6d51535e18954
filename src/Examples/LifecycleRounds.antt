-- ===== src/Examples/LifecycleRounds.antt =====
-- The lifecycle of the operator at a small cluster.
use hub_kubernetes_agent.Prelude.{
  ◌≡◌, refl, none, some, List, [], ◌∷◌, true, false, not, ◌&&◌, if◌then◌else◌, is_text, ok,
}
use hub_kubernetes_agent.Model.Objects.{Namespace}
use hub_kubernetes_agent.Operator.Namespaces.{is_eligible, namespace_is_excluded}
use hub_kubernetes_agent.Lifecycle.Api.{Server}
use hub_kubernetes_agent.Lifecycle.Labels.{
  namespace_action_mode_value, namespace_request, reconcile_action_mode_namespaces,
}
use hub_kubernetes_agent.Lifecycle.Labels.Served.{applied, namespace_request-is_eligible}
use hub_kubernetes_agent.Lifecycle.Labels.Requested.{
  LabelsEnd, reconcile_action_mode_namespaces-LabelsEnd,
}
use hub_kubernetes_agent.Lifecycle.Workload.{reconcile_operator_workload}
use hub_kubernetes_agent.Lifecycle.Workload.Confined.{
  AllConfined, reconcile_operator_workload-AllConfined,
}
use hub_kubernetes_agent.Lifecycle.Watch.{
  ConfigMap, modified, interrupted, ticked, deleted, Signal, on_signal, after, acts,
}
use hub_kubernetes_agent.Lifecycle.Watch.Observed.{called_for, newest, on_signal-called_for}
use hub_kubernetes_agent.Examples.Data.{meta, namespaces, excluded}

abbrev plain : Namespace
plain = record { metadata = meta "plain" none }

namespace_request-is_eligible_example :
    is_eligible excluded "plain" (applied (namespace_request true excluded plain) plain) ≡ (
      not (namespace_is_excluded "plain" excluded)
      && not (is_text (namespace_action_mode_value plain) "false"))
namespace_request-is_eligible_example = namespace_request-is_eligible excluded plain "plain" refl

abbrev server : Server
server = record {
  pod_images = λ namespace name requests. ok (some (some "agent:1.2" ∷ []));
  exists = λ scope kind name requests. ok false;
  namespaces = λ requests. ok namespaces;
  done = λ request requests. ok tt;
}

reconcile_action_mode_namespaces-LabelsEnd_example :
    let (result, final) = reconcile_action_mode_namespaces server true excluded [] in
    LabelsEnd server true excluded [] result final
reconcile_action_mode_namespaces-LabelsEnd_example =
    reconcile_action_mode_namespaces-LabelsEnd server true excluded []

reconcile_operator_workload-AllConfined_example :
    AllConfined "sentinella" false
      (reconcile_operator_workload server "sentinella" "agent-1" false excluded []).1
reconcile_operator_workload-AllConfined_example =
    reconcile_operator_workload-AllConfined server "sentinella" "agent-1" false excluded [] tt

abbrev config_map : ConfigMap
config_map = record {
  resource_version = some "7";
  data_entries = some (("ACTION_OPERATOR_ENABLED", " true ") ∷ []);
}

abbrev signals : List Signal
signals = interrupted ∷ modified config_map ∷ deleted ∷ []

on_signal-called_for_example : (on_signal true ticked (after signals)).0 ≡ (
    if acts ticked then (if true then called_for (newest (ticked ∷ signals)) else none) else none)
on_signal-called_for_example = on_signal-called_for true ticked signals
