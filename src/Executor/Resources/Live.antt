-- ===== src/Executor/Resources/Live.antt =====
-- executor.rs: when a command on the resources of a workload changes the cluster.
use hub_kubernetes_agent.Prelude.{
  ◌≡◌, ℕ, String, some, true, false, ◌&&◌, is_none, Bool-cases, inl, inr,
}
use hub_kubernetes_agent.Exec.{◌>>=◌}
use hub_kubernetes_agent.Exec.Keeps.{Keeps}
use hub_kubernetes_agent.Exec.Escapes.{bind_escape, or_else_lost, bind_lost}
use hub_kubernetes_agent.Model.Objects.{Labels}
use hub_kubernetes_agent.Model.Command.{WorkloadResourcesSpec}
use hub_kubernetes_agent.Executor.Api.{Cluster, History}
use hub_kubernetes_agent.Executor.Gate.{Config, ensure_effective_policy_allows}
use hub_kubernetes_agent.Executor.Gate.Quiet.{
  IsQuiet, quiet_rules, ensure_effective_policy_allows-IsQuiet,
}
use hub_kubernetes_agent.Executor.Gate.Authorized.{
  IsAuthorized, ensure_effective_policy_allows-IsAuthorized,
}
use hub_kubernetes_agent.Executor.Preflight.{collect_preflight_warnings}
use hub_kubernetes_agent.Executor.Rollout.Verify.{is_workload_kind}
use hub_kubernetes_agent.Executor.Resources.{
  build_workload_resources_patch, ResourcePreview, resources_ok, resources_err, resources_result,
  patch_resources, execute_workload_resources_inner, preview_workload_resources,
  apply_workload_resources,
}

module _ (show : ℕ → String) (cluster : Cluster) where
  pub collect_preflight_warnings-IsQuiet :
      {E : Type 0} (spec : WorkloadResourcesSpec) (labels : Labels)
      → Keeps IsQuiet (collect_preflight_warnings show cluster spec {E = E} labels)
  unfolding collect_preflight_warnings
  collect_preflight_warnings-IsQuiet spec labels = search quiet_rules depth 24

-- What has to hold for the resources of a workload to be set.
pub record IsSetAllowed (cluster : Cluster) (cfg : Config) (spec : WorkloadResourcesSpec)
    (h : History) : Type 0 where
  pub authorized :
      IsAuthorized cluster cfg spec.namespace "apply_workload_resources"
        (some spec.workload_kind)
        (some spec)
        h
  pub given : (is_none spec.requests && is_none spec.limits) ≡ false
  pub workload : is_workload_kind spec.workload_kind ≡ true

module _ (show : ℕ → String) (cluster : Cluster) (cfg : Config) (spec : WorkloadResourcesSpec) where
  dry_run-IsQuiet : Keeps IsQuiet (patch_resources show cluster cfg spec true)
  unfolding patch_resources
  dry_run-IsQuiet = search (quiet_rules, collect_preflight_warnings-IsQuiet) depth 16

  -- A preview of the resources of a workload changes nothing.
  pub preview_workload_resources-IsQuiet :
      (command_id : String)
      → Keeps IsQuiet (preview_workload_resources show cluster cfg command_id spec)
  unfolding preview_workload_resources
  preview_workload_resources-IsQuiet command_id =
      search (quiet_rules, ensure_effective_policy_allows-IsQuiet, dry_run-IsQuiet) depth 16

  not_given :
      (is_none spec.requests && is_none spec.limits) ≡ true
      → Keeps IsQuiet (patch_resources show cluster cfg spec false)
  unfolding patch_resources build_workload_resources_patch
  not_given nothing = record { at = λ h quiet. rw nothing quiet }

  not_workload :
      is_workload_kind spec.workload_kind ≡ false
      → Keeps IsQuiet (patch_resources show cluster cfg spec false)
  unfolding patch_resources
  not_workload other = rw other (search quiet_rules)

  -- What is lost in the change itself, after the checks.
  patch_lost :
      (h : History)
      → IsQuiet h
      → ¬ IsQuiet (patch_resources show cluster cfg spec false h).1
      → ((is_none spec.requests && is_none spec.limits) ≡ false)
        × (is_workload_kind spec.workload_kind ≡ true)
  patch_lost h quiet lost = elim (Bool-cases (is_none spec.requests && is_none spec.limits)) [
    | inl nothing ↦ absurd (lost ((not_given nothing).at h quiet))
    | inr given ↦ elim (Bool-cases (is_workload_kind spec.workload_kind)) [
      | inr other ↦ absurd (lost ((not_workload other).at h quiet))
      | inl workload ↦ (given, workload)
    ]
  ]

  resources_ok-Keeps :
      (command_id : String) (preview : ResourcePreview)
      → Keeps IsQuiet (resources_ok show cluster cfg command_id false preview)
  unfolding resources_ok
  resources_ok-Keeps command_id preview = record { at = λ h k. k }

  resources_err-Keeps :
      (command_id message : String)
      → Keeps IsQuiet (resources_err show cluster cfg command_id false message)
  unfolding resources_err
  resources_err-Keeps command_id message = record { at = λ h k. k }

  -- A command to set resources that was handled after reads and dry runs alone has changed the
  -- cluster only if a policy that was then listed admits it with these resources, a request or a
  -- limit is given, and the workload is a Deployment, a StatefulSet or a DaemonSet.
  pub apply_workload_resources-IsSetAllowed :
      (command_id : String) (h : History)
      → IsQuiet h
      → ¬ IsQuiet (apply_workload_resources show cluster cfg command_id spec h).1
      → IsSetAllowed cluster cfg spec h
  unfolding apply_workload_resources resources_result execute_workload_resources_inner
  apply_workload_resources-IsSetAllowed command_id h quiet changed =
      let check =
        ensure_effective_policy_allows cluster cfg spec.namespace "apply_workload_resources"
          (some spec.workload_kind) (some spec) in
      let inner = execute_workload_resources_inner show cluster cfg spec false in
      let lost_in_handler =
        or_else_lost IsQuiet (inner >>= resources_ok show cluster cfg command_id false)
          (resources_err show cluster cfg command_id false) h (resources_err-Keeps command_id)
          changed in
      let lost_inside =
        bind_lost IsQuiet inner (resources_ok show cluster cfg command_id false) h
          (resources_ok-Keeps command_id) lost_in_handler in
      let (e, passed, quiet', lost) =
        bind_escape IsQuiet check (λ policy. patch_resources show cluster cfg spec false) h
          (ensure_effective_policy_allows-IsQuiet cluster cfg spec.namespace
            "apply_workload_resources" (some spec.workload_kind) (some spec))
          quiet lost_inside in
      let (given, workload) = patch_lost (check h).1 quiet' lost in
      record {
        authorized =
            ensure_effective_policy_allows-IsAuthorized cluster cfg spec.namespace
              "apply_workload_resources" (some spec.workload_kind) (some spec) h e passed;
        given = given;
        workload = workload;
      }
