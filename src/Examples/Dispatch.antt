-- ===== src/Examples/Dispatch.antt =====
-- The commands that find their handler by their kind, at the small cluster.
use hub_kubernetes_agent.Prelude.{
  ℕ, ◌≡◌, refl, ◌==◌, String, true, false, none, some, [], ok, err, arith,
}
use hub_kubernetes_agent.Prelude.{strip_prefix, split_once}
use hub_kubernetes_agent.Model.Quantity.{policy_limits_are_valid}
use hub_kubernetes_agent.Operator.Namespaces.{
  namespace_action_mode_enabled, is_eligible, namespace_is_excluded, effective_namespaces,
}
use hub_kubernetes_agent.Prelude.{eq_ignore_ascii_case}
use hub_kubernetes_agent.Executor.Policy.{
  condition_true, namespace_is_effective_for_command, policy_rejection_reason_for_command,
  select_effective_policy,
}
use hub_kubernetes_agent.Executor.Limits.{policy_limits_violation_reason}
use hub_kubernetes_agent.Executor.Gate.{stale_after_ms}
use hub_kubernetes_agent.Model.Policy.{
  policy_action_targets_workload, policy_status_is_stale, policy_resource_is_supported,
  policy_action_is_supported,
}
use hub_kubernetes_agent.Operator.Status.{build_policy_status}
use hub_kubernetes_agent.Model.Command.{WorkloadResourcesSpec, ResourceYamlSpec, UpdateAgentSpec}
use hub_kubernetes_agent.Model.Result.{CommandResult}
use hub_kubernetes_agent.Executor.Api.{finish}
use hub_kubernetes_agent.Executor.Gate.Quiet.{IsQuiet}
use hub_kubernetes_agent.Executor.Answers.{IsAnswer}
use hub_kubernetes_agent.Executor.Resources.{
  apply_workload_resources, workload_container_resources, container_resources, find_container,
  build_workload_resources_patch,
}
use hub_kubernetes_agent.Executor.Resources.Live.{
  IsSetAllowed, apply_workload_resources-IsSetAllowed,
}
use hub_kubernetes_agent.Executor.Update.{update_agent}
use hub_kubernetes_agent.Executor.Update.Live.{UpdateOutcome, update_agent-UpdateOutcome}
use hub_kubernetes_agent.Executor.Yaml.{get_resource_yaml, split_api_version}
use hub_kubernetes_agent.Executor.Yaml.Versions.{joined, joined-split_api_version}
use hub_kubernetes_agent.Executor.Yaml.Reads.{YamlRead, get_resource_yaml-YamlRead}
use hub_kubernetes_agent.Executor.Dispatch.{Formats, execute_inner}
use hub_kubernetes_agent.Executor.Dispatch.Answered.{execute_inner-IsAnswer}
use hub_kubernetes_agent.Executor.Dispatch.Gated.{IsGranted, execute_inner-IsGranted}
use hub_kubernetes_agent.Examples.Data.{cluster, cfg, scale_spec, restart_spec, drain_spec, cmd}
use hub_kubernetes_agent.Examples.Handlers.{
  scaled, slept-IsClock, set_back-LosesAtMost, set_back_cluster,
}

abbrev given_image : String
given_image = " us-east1-docker.pkg.dev/sentinella-hub/kubernetes-agent/agent:1.2 "

abbrev image : String
image = "us-east1-docker.pkg.dev/sentinella-hub/kubernetes-agent/agent:1.2"

apps_v1 : split_api_version "apps/v1" ≡ some ("apps", "v1")
unfolding split_api_version split_once strip_prefix
apps_v1 = refl

joined-split_api_version_example : (joined "apps" "v1" ≡ "apps/v1") × (("v1" == "") ≡ false)
joined-split_api_version_example = joined-split_api_version "apps/v1" "apps" "v1" apps_v1

abbrev yaml_spec : ResourceYamlSpec
yaml_spec = record { api_version = "v1"; kind = "ConfigMap"; namespace = some "apps"; name = "web" }

abbrev digits : ℕ → String
digits n = "1"

get_resource_yaml-YamlRead_example :
    YamlRead yaml_spec []
      (get_resource_yaml digits (λ value. ok "kind: ConfigMap") cluster cfg "cmd-4" yaml_spec []).1
get_resource_yaml-YamlRead_example =
    get_resource_yaml-YamlRead digits (λ value. ok "kind: ConfigMap") cluster cfg "cmd-4" yaml_spec
      []

abbrev update_spec : UpdateAgentSpec
update_spec = record { image = given_image }

update_agent-UpdateOutcome_example :
    UpdateOutcome cluster cfg update_spec []
      (update_agent digits cluster cfg "cmd-5" update_spec []).1
update_agent-UpdateOutcome_example =
    update_agent-UpdateOutcome digits cluster cfg "cmd-5" update_spec [] tt

abbrev resources_spec : WorkloadResourcesSpec
resources_spec = record {
  workload_kind = "Deployment";
  namespace = "apps";
  name = "web";
  container = "app";
  requests = some (record { cpu = some "100m"; memory = none });
  limits = none;
}

resources_set : ¬ IsQuiet (apply_workload_resources digits cluster cfg "cmd-6" resources_spec []).1
unfolding apply_workload_resources select_effective_policy build_policy_status
    policy_status_is_stale stale_after_ms condition_true eq_ignore_ascii_case effective_namespaces
    is_eligible namespace_is_excluded namespace_action_mode_enabled policy_action_is_supported
    policy_action_targets_workload policy_resource_is_supported policy_limits_are_valid
    namespace_is_effective_for_command policy_rejection_reason_for_command find_container
    container_resources workload_container_resources build_workload_resources_patch
    policy_limits_violation_reason
resources_set = λ quiet. cc quiet.0

apply_workload_resources-IsSetAllowed_example : IsSetAllowed cluster cfg resources_spec []
apply_workload_resources-IsSetAllowed_example =
    apply_workload_resources-IsSetAllowed digits cluster cfg resources_spec "cmd-6" [] tt
      resources_set

abbrev formats : Formats
formats = record {
  resource_yaml = λ value. ok yaml_spec;
  postgresql_diagnostic = λ value. err "missing field";
  workload_resources = λ value. err "missing field";
  rollout_restart = λ value. ok restart_spec;
  scale = λ value. ok scale_spec;
  drain_node = λ value. ok drain_spec;
  self_update = λ value. err "missing field";
  update_agent = λ value. ok update_spec;
  to_yaml = λ value. ok "kind: ConfigMap";
  show = digits;
}

execute_inner-IsAnswer_example :
    (result : CommandResult) × ((finish (execute_inner formats set_back_cluster cfg 721 cmd [])).0
      ≡ some result)
    × IsAnswer "cmd-1" result
execute_inner-IsAnswer_example =
    execute_inner-IsAnswer formats set_back_cluster cfg 3_000 720 cmd [] slept-IsClock
      set_back-LosesAtMost (omega arith) (omega arith)

changed : ¬ IsQuiet (execute_inner formats cluster cfg 6 cmd []).1
unfolding execute_inner
changed = scaled

execute_inner-IsGranted_example : (true ≡ true) × IsGranted formats cluster cfg cmd []
execute_inner-IsGranted_example = execute_inner-IsGranted formats cluster cfg 6 cmd [] tt changed
