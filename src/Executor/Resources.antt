-- ===== src/Executor/Resources.antt =====
-- executor.rs: `preview_workload_resources` and `apply_workload_resources`.
pub mod Live
use hub_kubernetes_agent.Prelude.{
  ℕ, String, Option, none, some, List, [], ◌∷◌, ◌++◌, map, Bool, true, false, not, ◌&&◌, ◌==◌,
  if◌then◌else◌, ◌<>◌, is_none, unwrap_or, map_or, Result, ok, err,
}
use hub_kubernetes_agent.Exec.{Exec, pure, fail, lift, or_else, ◌>>=◌}
use hub_kubernetes_agent.Model.Objects.{Labels, Container, ResourceRequirements}
use hub_kubernetes_agent.Model.Json.{Json, null, string, array, nil, cons, obj}
use hub_kubernetes_agent.Model.Command.{WorkloadResourcesSpec, ResourceMap}
use hub_kubernetes_agent.Model.Result.{CommandResult, simple}
use hub_kubernetes_agent.Executor.Api.{
  Cluster, History, Handler, Workload, request, read, get_workload, patch_workload,
}
use hub_kubernetes_agent.Executor.Gate.{Config, ensure_effective_policy_allows}
use hub_kubernetes_agent.Executor.Preflight.{collect_preflight_warnings}
use hub_kubernetes_agent.Executor.Rollout.Verify.{is_workload_kind}

pub record ResourcePreview : Type 0 where
  pub patch : Json
  pub observed_before : Json
  pub observed_after : Json
  pub warnings : List String

-- The entry of an optional value, in a map that lacks it otherwise.
abbrev entry : {A : Type 0} → String → (A → Json) → Option A → List (String × Json)
entry key value none = []
entry key value (some a) = (key, value a) ∷ []

unfoldable pub resource_map_to_value : ResourceMap → Json
unfolding obj
resource_map_to_value resources =
    if is_none resources.cpu && is_none resources.memory
    then null
    else obj (entry "cpu" string resources.cpu ++ entry "memory" string resources.memory)

unfoldable pub build_workload_resources_patch : WorkloadResourcesSpec → Result String Json
unfolding resource_map_to_value obj
build_workload_resources_patch spec =
    let resources =
      entry "requests" resource_map_to_value spec.requests
      ++ entry "limits" resource_map_to_value spec.limits in
    let container = obj (("name", string spec.container) ∷ ("resources", obj resources) ∷ []) in
    let pod_spec = obj (("containers", array (cons container nil)) ∷ []) in
    if is_none spec.requests && is_none spec.limits
    then err "at least one of requests or limits must be provided"
    else ok (obj (("spec", obj (("template", obj (("spec", pod_spec) ∷ [])) ∷ [])) ∷ []))

unfoldable pub quantity_map_to_value : Labels → Json
unfolding obj
quantity_map_to_value resources = obj (map (λ e. (e.0, string e.1)) resources)

unfoldable pub resource_requirements_to_value : Option ResourceRequirements → Json
unfolding quantity_map_to_value obj
resource_requirements_to_value none = obj []
resource_requirements_to_value (some resources) = obj (
    entry "requests" quantity_map_to_value resources.requests
    ++ entry "limits" quantity_map_to_value resources.limits)

-- `containers.iter().find(|c| c.name == container)`
unfoldable pub find_container : List Container → String → Option Container
find_container [] container = none
find_container (c ∷ rest) container =
    if c.name == container then some c else find_container rest container

unfoldable pub container_resources : List Container → String → Result String Json
unfolding find_container resource_requirements_to_value
container_resources containers container = elim (find_container containers container) [
  | none ↦ err ("container not found in workload pod template: " <> container)
  | some found ↦ ok (resource_requirements_to_value found.resources)
]

-- The functions of the source for the three kinds differ in the type of the object alone.
unfoldable pub workload_container_resources : String → Workload → String → Result String Json
unfolding container_resources
workload_container_resources kind workload container = elim workload.containers [
  | none ↦ err (kind <> " has no pod template spec: " <> container)
  | some containers ↦ container_resources containers container
]

module _ (show : ℕ → String) (cluster : Cluster) (cfg : Config) where
  -- From the patch on.
  pub patch_resources : WorkloadResourcesSpec → Bool → Exec History String ResourcePreview
  unfolding request build_workload_resources_patch workload_container_resources
      collect_preflight_warnings lift fail pure or_else ◌>>=◌
  patch_resources spec dry_run = do
    patch ← lift (build_workload_resources_patch spec)
    if is_workload_kind spec.workload_kind
        then (do
          before ←
              or_else
                (request (get_workload spec.workload_kind spec.namespace spec.name)
                  (cluster.workload spec.workload_kind spec.namespace spec.name))
                (λ e.
                  fail ("failed to get " <> spec.workload_kind <> " " <> spec.name <> ": " <> e))
          observed_before ←
              lift (workload_container_resources spec.workload_kind before spec.container)
          warnings ← collect_preflight_warnings show cluster spec (unwrap_or before.pod_labels [])
          after ←
              or_else
                (request (patch_workload spec.workload_kind spec.namespace spec.name patch dry_run)
                  (cluster.workload_patched spec.workload_kind spec.namespace spec.name patch
                    dry_run))
                (λ e. fail (
                  (if dry_run then "dry-run patch" else "apply patch")
                  <> " failed for "
                  <> spec.workload_kind
                  <> " "
                  <> spec.name
                  <> ": "
                  <> e))
          observed_after ←
              lift (workload_container_resources spec.workload_kind after spec.container)
          pure (record {
            patch = patch;
            observed_before = observed_before;
            observed_after = observed_after;
            warnings = warnings;
          }))
        else fail (
            "unsupported workload_kind " <> spec.workload_kind
            <> "; expected Deployment, StatefulSet, or DaemonSet")

  abbrev pub resources_action : Bool → String
  resources_action dry_run =
      if dry_run then "preview_workload_resources" else "apply_workload_resources"

  pub execute_workload_resources_inner :
      WorkloadResourcesSpec → Bool → Exec History String ResourcePreview
  unfolding ensure_effective_policy_allows patch_resources ◌>>=◌
  execute_workload_resources_inner spec dry_run = do
    policy ←
        ensure_effective_policy_allows cluster cfg spec.namespace (resources_action dry_run)
          (some spec.workload_kind) (some spec)
    patch_resources spec dry_run

  -- The arms of both handlers' `match`.
  pub resources_ok : String → Bool → ResourcePreview → Exec History String CommandResult
  unfolding read pure ◌>>=◌
  resources_ok command_id dry_run preview = do
    now ← read cluster.now_ms
    pure (record (simple now command_id "ok" none) {
      dry_run = some dry_run;
      applied_patch = some preview.patch;
      observed_before = some preview.observed_before;
      observed_after = some preview.observed_after;
      warnings = preview.warnings;
    })

  pub resources_err : String → Bool → String → Handler
  unfolding read pure ◌>>=◌
  resources_err command_id dry_run message = do
    now ← read cluster.now_ms
    pure (record (simple now command_id "error" (some message)) { dry_run = some dry_run })

  pub resources_result : String → Bool → Exec History String ResourcePreview → Handler
  unfolding resources_ok resources_err or_else ◌>>=◌
  resources_result command_id dry_run inner =
      or_else (inner >>= resources_ok command_id dry_run) (resources_err command_id dry_run)

  unfoldable pub preview_workload_resources : String → WorkloadResourcesSpec → Handler
  unfolding execute_workload_resources_inner resources_result
  preview_workload_resources command_id spec =
      resources_result command_id true (execute_workload_resources_inner spec true)

  unfoldable pub apply_workload_resources : String → WorkloadResourcesSpec → Handler
  unfolding execute_workload_resources_inner resources_result
  apply_workload_resources command_id spec =
      resources_result command_id false (execute_workload_resources_inner spec false)
