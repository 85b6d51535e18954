-- ===== src/Executor/Gate.antt =====
-- executor.rs: the checks that a handler makes before it does anything, and the results of errors.
pub mod Quiet
pub mod Authorized
use hub_kubernetes_agent.Prelude.{
  ℕ, ◌*◌, ◌^◌, ltb, String, Option, some, Bool, true, false, List, if◌then◌else◌,
}
use hub_kubernetes_agent.Exec.{Exec, fail, lift, ◌>>=◌}
use hub_kubernetes_agent.Model.Command.{ExecutionMode, preview, execute, WorkloadResourcesSpec}
use hub_kubernetes_agent.Model.Policy.{ActionPolicy}
use hub_kubernetes_agent.Model.Result.{CommandResult, simple}
use hub_kubernetes_agent.Executor.Policy.{
  EffectivePolicy, select_effective_policy, select_cluster_action_policy,
}
use hub_kubernetes_agent.Executor.Api.{
  Cluster, History, request, read, Early, returned, list_policies,
}

-- `Config`, with the fields that the executor reads.
pub record Config : Type 0 where
  pub action_operator_poll_interval_secs : ℕ
  pub actions_enabled : Bool
  pub readonly_commands_enabled : Bool
  pub cluster_id : String

abbrev pub is_preview : ExecutionMode → Bool
is_preview preview = true
is_preview execute = false

abbrev pub mode_text : ExecutionMode → String
mode_text preview = "preview"
mode_text execute = "execute"

-- `command_error`
unfoldable pub command_error : ℕ → String → ExecutionMode → String → CommandResult
command_error now_ms command_id mode message =
    record (simple now_ms command_id "error" (some message)) { dry_run = some (is_preview mode) }

-- `interval.checked_mul(3).unwrap_or(interval).as_millis()`; a `Duration` holds seconds in a u64.
unfoldable pub stale_after_ms : Config → ℕ
stale_after_ms cfg =
    let secs = cfg.action_operator_poll_interval_secs in
    if ltb (secs * 3) (2 ^ 64) then secs * 3 * 1000 else secs * 1000

module _ (cluster : Cluster) (cfg : Config) where
  unfoldable pub list_action_policies : Exec History String (List ActionPolicy)
  unfolding request
  list_action_policies = request list_policies cluster.policies

  unfoldable pub ensure_effective_policy_allows :
      String
      → String
      → Option String
      → Option WorkloadResourcesSpec
      → Exec History String EffectivePolicy
  unfolding list_action_policies read lift ◌>>=◌
  ensure_effective_policy_allows namespace command_kind target_kind resource_spec = do
    policies ← list_action_policies
    now ← read cluster.now_ms
    lift (
        select_effective_policy namespace command_kind target_kind resource_spec now
          (stale_after_ms cfg) policies)

  unfoldable pub ensure_cluster_action_allowed : String → Exec History String EffectivePolicy
  unfolding list_action_policies read lift ◌>>=◌
  ensure_cluster_action_allowed command_kind = do
    policies ← list_action_policies
    now ← read cluster.now_ms
    lift (select_cluster_action_policy policies command_kind now (stale_after_ms cfg))

  -- `return command_error(…)`
  unfoldable pub return_error :
      {A : Type 0} → String → ExecutionMode → String → Exec History Early A
  unfolding read fail ◌>>=◌
  return_error command_id mode message = do
    now ← read cluster.now_ms
    fail (returned (command_error now command_id mode message))

  -- `return CommandResult::simple(command_id, "error", Some(message))`
  unfoldable pub return_simple_error : {A : Type 0} → String → String → Exec History Early A
  unfolding read fail ◌>>=◌
  return_simple_error command_id message = do
    now ← read cluster.now_ms
    fail (returned (simple now command_id "error" (some message)))
