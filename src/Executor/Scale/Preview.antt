-- ===== src/Executor/Scale/Preview.antt =====
-- executor.rs: a preview of a scale command changes nothing.
use hub_kubernetes_agent.Prelude.{◌≡◌, refl, String, true}
use hub_kubernetes_agent.Exec.Keeps.{Keeps}
use hub_kubernetes_agent.Model.Command.{ScaleSpec}
use hub_kubernetes_agent.Executor.Api.{Cluster}
use hub_kubernetes_agent.Executor.Gate.{Config, is_preview}
use hub_kubernetes_agent.Executor.Gate.Quiet.{IsQuiet, quiet_rules, return_error-Keeps}
use hub_kubernetes_agent.Executor.Scale.{
  get_deployment, get_before_scale, patch_replicas, scale_checked,
}

module _ (cluster : Cluster) (cfg : Config) (command_id : String) (spec : ScaleSpec) where
  get_deployment-IsQuiet : Keeps IsQuiet (get_deployment cluster cfg command_id spec)
  unfolding get_deployment
  get_deployment-IsQuiet = record { at = λ h k. (refl, k) }

  get_before_scale-IsQuiet : Keeps IsQuiet (get_before_scale cluster cfg command_id spec)
  unfolding get_before_scale
  get_before_scale-IsQuiet = record { at = λ h k. (refl, k) }

  dry_run-IsQuiet : Keeps IsQuiet (patch_replicas cluster cfg command_id spec true)
  unfolding patch_replicas
  dry_run-IsQuiet = record { at = λ h k. (refl, k) }

  pub scale_checked-IsQuiet :
      is_preview spec.execution.mode ≡ true
      → Keeps IsQuiet (scale_checked cluster cfg command_id spec)
  unfolding scale_checked
  scale_checked-IsQuiet p = rw p (
      search
        (
          quiet_rules, get_deployment-IsQuiet, get_before_scale-IsQuiet, dry_run-IsQuiet,
          return_error-Keeps,
        )
        depth 12)
