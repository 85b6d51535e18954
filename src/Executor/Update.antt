-- ===== src/Executor/Update.antt =====
-- executor.rs: `self_update` and `update_agent`.
pub mod Live
use hub_kubernetes_agent.Prelude.{
  ℕ, String, Option, none, some, List, [], ◌∷◌, Bool, true, false, ◌<>◌, unwrap_or, Result, ok, err,
}
use hub_kubernetes_agent.Exec.{Exec, pure, fail, or_else, recover, ◌>>=◌}
use hub_kubernetes_agent.Model.Json.{Json, string, array, nil, cons, obj}
use hub_kubernetes_agent.Model.Command.{
  SelfUpdateSpec, UpdateAgentSpec, WorkloadResourcesSpec, execute,
}
use hub_kubernetes_agent.Model.Result.{CommandResult, simple}
use hub_kubernetes_agent.Executor.Api.{
  Cluster, History, Handler, Early, returned, Workload, request, read, get_workload, patch_workload,
}
use hub_kubernetes_agent.Executor.Policy.{update_agent_namespace}
use hub_kubernetes_agent.Executor.Gate.{Config, ensure_effective_policy_allows, return_error}
use hub_kubernetes_agent.Executor.Preflight.{collect_preflight_warnings}
use hub_kubernetes_agent.Executor.Resources.{find_container}
use hub_kubernetes_agent.Executor.Image.{validate_update_agent_image}

abbrev pub update_agent_daemonset : String
update_agent_daemonset = "sentinella-hub-k8s-agent"

abbrev pub update_agent_container : String
update_agent_container = "agent"

unfoldable pub daemonset_container_image : Workload → String → Result String String
unfolding find_container
daemonset_container_image workload container = elim workload.containers [
  | none ↦ err ("target DaemonSet has no pod template spec for container " <> container)
  | some containers ↦ elim (find_container containers container) [
    | none ↦ err ("target DaemonSet missing expected container " <> container)
    | some matched ↦ elim matched.image [
      | none ↦ err ("target DaemonSet container " <> container <> " has no image field")
      | some image ↦ ok image
    ]
  ]
]

unfoldable pub image_patch : String → Json
unfolding obj
image_patch image =
    let container = obj (("name", string update_agent_container) ∷ ("image", string image) ∷ []) in
    let pod_spec = obj (("containers", array (cons container nil)) ∷ []) in
    obj (("spec", obj (("template", obj (("spec", pod_spec) ∷ [])) ∷ [])) ∷ [])

abbrev target_text : String
target_text = update_agent_namespace <> "/" <> update_agent_daemonset

-- What the checks before the change are asked about.
abbrev update_agent_target : WorkloadResourcesSpec
update_agent_target = record {
  workload_kind = "DaemonSet";
  namespace = update_agent_namespace;
  name = update_agent_daemonset;
  container = update_agent_container;
  requests = none;
  limits = none;
}

module _ (show : ℕ → String) (cluster : Cluster) (cfg : Config) (command_id : String) where
  unfoldable pub self_update : SelfUpdateSpec → Handler
  unfolding ensure_effective_policy_allows return_error or_else pure read ◌>>=◌
  self_update spec = do
    policy ←
        or_else
          (ensure_effective_policy_allows cluster cfg update_agent_namespace "self_update" none
            none)
          (return_error cluster cfg command_id execute)
    now ← read cluster.now_ms
    pure
        (record (simple now command_id "ok" (
          some (
            "self_update accepted: strategy="
            <> unwrap_or spec.strategy "restart_pod"
            <> ", target_version="
            <> unwrap_or spec.target_version "<unspecified>"
            <> ", reason="
            <> unwrap_or spec.reason "<none>"))) { restart_requested = some true })

  -- `return update_agent_error(…)`
  unfoldable pub update_agent_error : {A : Type 0} → String → Exec History Early A
  unfolding read fail ◌>>=◌
  update_agent_error message = do
    now ← read cluster.now_ms
    fail (returned (record (simple now command_id "error" (some message)) { dry_run = some false }))

  get_daemonset : Exec History String Workload
  unfolding request
  get_daemonset =
      request (get_workload "DaemonSet" update_agent_namespace update_agent_daemonset)
        (cluster.workload "DaemonSet" update_agent_namespace update_agent_daemonset)

  patch_image : String → Bool → Exec History String Workload
  unfolding request image_patch
  patch_image image dry_run =
      request
        (patch_workload "DaemonSet" update_agent_namespace update_agent_daemonset
          (image_patch image) dry_run)
        (cluster.workload_patched "DaemonSet" update_agent_namespace update_agent_daemonset
          (image_patch image) dry_run)

  -- A test of the value at hand: its error ends the handler.
  pub checked : Result String String → Exec History Early String
  unfolding recover update_agent_error
  checked outcome = recover outcome update_agent_error

  -- The answer, once the image is set.
  unfoldable pub update_agent_report : String → String → List String → Workload → Handler
  unfolding checked update_agent_error image_patch obj pure read daemonset_container_image ◌>>=◌
  update_agent_report image before_image warnings after = do
    after_image ← checked (daemonset_container_image after update_agent_container)
    now ← read cluster.now_ms
    pure
        (record (simple now command_id "ok" (
          some (
            "update_agent applied on " <> target_text <> " container " <> update_agent_container
            <> ": " <> before_image <> " -> " <> after_image))) {
              dry_run = some false;
              applied_patch = some (image_patch image);
              observed_before = some (obj (("image", string before_image) ∷ []));
              observed_after = some (obj (("image", string after_image) ∷ []));
              warnings = warnings;
            })

  patch_failed : String → Exec History Early Workload
  unfolding update_agent_error
  patch_failed e =
      update_agent_error ("failed to patch target DaemonSet " <> target_text <> ": " <> e)

  -- After the dry run.
  unfoldable pub update_agent_apply : String → String → List String → Handler
  unfolding patch_image patch_failed update_agent_report or_else ◌>>=◌
  update_agent_apply image before_image warnings =
      or_else (patch_image image false) patch_failed
      >>= update_agent_report image before_image warnings

  -- Once the image has been accepted.
  unfoldable pub update_agent_image : String → Handler
  unfolding get_daemonset patch_image checked update_agent_apply update_agent_error
      daemonset_container_image collect_preflight_warnings or_else ◌>>=◌
  update_agent_image image = do
    before ←
        or_else get_daemonset
          (λ e. update_agent_error ("failed to get target DaemonSet " <> target_text <> ": " <> e))
    before_image ← checked (daemonset_container_image before update_agent_container)
    warnings ←
        collect_preflight_warnings show cluster update_agent_target (unwrap_or before.pod_labels [])
    dry_run ← or_else (patch_image image true) (λ e.
        update_agent_error
          ("update_agent dry-run failed for target DaemonSet " <> target_text <> ": " <> e))
    update_agent_apply image before_image warnings

  unfoldable pub update_agent : UpdateAgentSpec → Handler
  unfolding ensure_effective_policy_allows update_agent_error checked update_agent_image
      validate_update_agent_image or_else ◌>>=◌
  update_agent spec = do
    policy ←
        or_else
          (ensure_effective_policy_allows cluster cfg update_agent_namespace "update_agent" none
            none)
          update_agent_error
    image ← checked (validate_update_agent_image spec.image)
    update_agent_image image
