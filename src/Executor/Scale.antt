-- ===== src/Executor/Scale.antt =====
-- executor.rs: `scale_workload`.
pub mod Preview
pub mod Live
use text.Mathlib.Text.{◌==◌}
use hub_kubernetes_agent.Prelude.{
  String, none, some, [], ◌∷◌, Bool, true, false, not, ℤ, pos, negsuc, if◌then◌else◌, ◌<>◌,
  unwrap_or,
}
use hub_kubernetes_agent.Exec.{Exec, pure, ◌>>=◌, or_else}
use hub_kubernetes_agent.Model.Command.{ScaleSpec}
use hub_kubernetes_agent.Model.Json.{Json, string, number, obj, optional_number}
use hub_kubernetes_agent.Model.Result.{CommandResult, simple}
use hub_kubernetes_agent.Executor.Api.{
  Cluster, History, request, read, Handler, Workload, Scale, get_workload, get_scale, patch_scale,
}
use hub_kubernetes_agent.Executor.Gate.{
  Config, is_preview, mode_text, ensure_effective_policy_allows, return_error,
}

abbrev pub is_negative : ℤ → Bool
is_negative (pos n) = false
is_negative (negsuc n) = true

-- `s.replicas` is an i32 behind an optional spec or status: `unwrap_or_default`.
abbrev scale_state : Scale → Json
scale_state scale = obj (
    ("desired_replicas", number (unwrap_or scale.desired (pos 0)))
    ∷ ("current_replicas", number (unwrap_or scale.current (pos 0)))
    ∷ [])

replicas_patch : ℤ → Json
replicas_patch replicas = obj (("spec", obj (("replicas", number replicas) ∷ [])) ∷ [])

requested_scale : ScaleSpec → Json
requested_scale spec = obj (
    ("execution", obj (("mode", string (mode_text spec.execution.mode)) ∷ []))
    ∷ (
      "target",
      obj (
          ("kind", string spec.target.kind)
          ∷ ("namespace", string spec.target.namespace)
          ∷ ("name", string spec.target.name)
          ∷ []),
    )
    ∷ ("replicas", number spec.replicas)
    ∷ [])

-- Two of the three are `Option<i32>` inside, and print as null where the status lacks them.
observed_before : Workload → Scale → Json
observed_before before scale = obj (
    ("replicas", optional_number scale.desired)
    ∷ ("ready_replicas", optional_number before.ready_replicas)
    ∷ ("available_replicas", optional_number before.available_replicas)
    ∷ [])

module _ (cluster : Cluster) (cfg : Config) (command_id : String) where
  get_deployment : ScaleSpec → Exec History String Workload
  unfolding request
  get_deployment spec =
      request (get_workload "Deployment" spec.target.namespace spec.target.name)
        (cluster.workload "Deployment" spec.target.namespace spec.target.name)

  get_before_scale : ScaleSpec → Exec History String Scale
  unfolding request
  get_before_scale spec =
      request (get_scale spec.target.namespace spec.target.name)
        (cluster.scale spec.target.namespace spec.target.name)

  patch_replicas : ScaleSpec → Bool → Exec History String Scale
  unfolding request replicas_patch
  patch_replicas spec dry_run =
      request
        (patch_scale spec.target.namespace spec.target.name (replicas_patch spec.replicas) dry_run)
        (cluster.scale_patched spec.target.namespace spec.target.name (replicas_patch spec.replicas)
          dry_run)

  -- After the dry run: the live request, for a command that is to be executed.
  scale_apply : ScaleSpec → CommandResult → Handler
  unfolding patch_replicas return_error or_else pure ◌>>=◌
  scale_apply spec result = do
    applied ← or_else (patch_replicas spec false) (λ e.
        return_error cluster cfg command_id spec.execution.mode
          ("scale apply failed for Deployment " <> spec.target.name <> ": " <> e))
    pure (record result {
      dry_run = some false;
      observed_after = some (scale_state applied);
      verification = some (record {
        status = "accepted";
        message = some "scale request applied; stabilization is tracked separately";
        observed_state = some (scale_state applied);
      });
    })

  -- From the reads to the dry run.
  pub scale_checked : ScaleSpec → Handler
  unfolding get_deployment get_before_scale patch_replicas scale_apply return_error or_else pure
      read replicas_patch requested_scale observed_before ◌>>=◌
  scale_checked spec = do
    before ← or_else (get_deployment spec) (λ e.
        return_error cluster cfg command_id spec.execution.mode
          ("failed to get Deployment " <> spec.target.name <> ": " <> e))
    before_scale ← or_else (get_before_scale spec) (λ e.
        return_error cluster cfg command_id spec.execution.mode
          ("failed to get scale for Deployment " <> spec.target.name <> ": " <> e))
    now ← read cluster.now_ms
    dry_run ← or_else (patch_replicas spec true) (λ e.
        return_error cluster cfg command_id spec.execution.mode
          ("scale dry-run failed for Deployment " <> spec.target.name <> ": " <> e))
    let result = record (simple now command_id "ok" none) {
      requested_state = some (requested_scale spec);
      dry_run = some (is_preview spec.execution.mode);
      observed_before = some (observed_before before before_scale);
      applied_patch = some (replicas_patch spec.replicas);
      observed_after = some (scale_state dry_run);
    }
    if is_preview spec.execution.mode then pure result else scale_apply spec result

  unfoldable pub scale_workload : ScaleSpec → Handler
  unfolding scale_checked ensure_effective_policy_allows return_error or_else ◌>>=◌
  scale_workload spec = do
    policy ←
        or_else
          (ensure_effective_policy_allows cluster cfg spec.target.namespace "scale"
            (some spec.target.kind) none)
          (return_error cluster cfg command_id spec.execution.mode)
    if is_negative spec.replicas
        then return_error cluster cfg command_id spec.execution.mode
            "scale replicas must be greater than or equal to 0"
        else if not (spec.target.kind == "Deployment")
        then return_error cluster cfg command_id spec.execution.mode
            ("unsupported scale target kind " <> spec.target.kind <> "; expected Deployment")
        else scale_checked spec
