-- ===== src/Executor/Rollout/Live.antt =====
-- executor.rs: when a restart command changes the cluster.
use hub_kubernetes_agent.Prelude.{
  ℕ, ◌≡◌, refl, String, none, some, true, false, Bool-cases, inl, inr,
}
use hub_kubernetes_agent.Exec.Keeps.{Keeps}
use hub_kubernetes_agent.Exec.Escapes.{or_else_escape}
use hub_kubernetes_agent.Model.Command.{RolloutRestartSpec}
use hub_kubernetes_agent.Model.Json.{Json}
use hub_kubernetes_agent.Executor.Api.{Cluster, History}
use hub_kubernetes_agent.Executor.Gate.{
  Config, is_preview, ensure_effective_policy_allows, return_error,
}
use hub_kubernetes_agent.Executor.Gate.Quiet.{
  IsQuiet, quiet_rules, ensure_effective_policy_allows-IsQuiet, return_error-Keeps,
}
use hub_kubernetes_agent.Executor.Gate.Authorized.{
  IsAuthorized, ensure_effective_policy_allows-IsAuthorized, return_error_ends,
}
use hub_kubernetes_agent.Executor.Rollout.{
  read_workload, apply_rollout_restart_patch, rollout_checked, rollout_restart,
}

read_workload-IsQuiet :
    (cluster : Cluster) (kind namespace name : String)
    → Keeps IsQuiet (read_workload cluster kind namespace name)
unfolding read_workload
read_workload-IsQuiet cluster kind namespace name = record { at = λ h k. (refl, k) }

dry_run-IsQuiet :
    (cluster : Cluster) (kind namespace name : String) (patch : Json)
    → Keeps IsQuiet (apply_rollout_restart_patch cluster kind namespace name patch true)
unfolding apply_rollout_restart_patch
dry_run-IsQuiet cluster kind namespace name patch =
    search (quiet_rules, read_workload-IsQuiet) depth 10

module _ (cluster : Cluster) (cfg : Config) (command_id : String) (fuel : ℕ)
    (spec : RolloutRestartSpec) where
  rollout_checked-IsQuiet :
      is_preview spec.execution.mode ≡ true
      → Keeps IsQuiet (rollout_checked cluster cfg command_id fuel spec)
  unfolding rollout_checked
  rollout_checked-IsQuiet p =
      rw p (search (quiet_rules, dry_run-IsQuiet, return_error-Keeps) depth 12)

  not_preview :
      (h : History)
      → IsQuiet h
      → ¬ IsQuiet (rollout_checked cluster cfg command_id fuel spec h).1
      → is_preview spec.execution.mode ≡ false
  not_preview h quiet lost = elim (Bool-cases (is_preview spec.execution.mode)) [
    | inl p ↦ absurd (lost ((rollout_checked-IsQuiet p).at h quiet))
    | inr n ↦ n
  ]

-- A restart command that was handled after reads and dry runs alone has changed the cluster only if
-- it is no preview, and a policy that was then listed admits it.
pub rollout_restart-IsAuthorized :
    (cluster : Cluster) (cfg : Config) (command_id : String) (fuel : ℕ) (spec : RolloutRestartSpec)
    (h : History)
    → IsQuiet h
    → ¬ IsQuiet (rollout_restart cluster cfg command_id fuel spec h).1
    → (is_preview spec.execution.mode ≡ false)
      × IsAuthorized cluster cfg spec.target.namespace "rollout_restart"
          (some spec.target.kind)
          none
          h
unfolding rollout_restart
rollout_restart-IsAuthorized cluster cfg command_id fuel spec h quiet changed =
    let check =
      ensure_effective_policy_allows cluster cfg spec.target.namespace "rollout_restart"
        (some spec.target.kind) none in
    let (e, passed, quiet', lost) =
      or_else_escape IsQuiet check (return_error cluster cfg command_id spec.execution.mode) _ h
        (ensure_effective_policy_allows-IsQuiet cluster cfg spec.target.namespace "rollout_restart"
          (some spec.target.kind) none)
        (return_error-Keeps cluster cfg command_id spec.execution.mode)
        (return_error_ends cluster cfg command_id spec.execution.mode) quiet changed in
    (
      not_preview cluster cfg command_id fuel spec (check h).1 quiet' lost,
      ensure_effective_policy_allows-IsAuthorized cluster cfg spec.target.namespace
          "rollout_restart" (some spec.target.kind) none h e passed,
    )
