-- ===== src/Executor/Dispatch.antt =====
-- executor.rs: `execute_inner`, which finds the handler of a command.
pub mod Answered
pub mod Gated
use hub_kubernetes_agent.Prelude.{
  ℕ, String, none, some, Bool, true, false, not, ◌==◌, if◌then◌else◌, ◌<>◌, Result, ok, err,
}
use hub_kubernetes_agent.Exec.{pure, ◌>>=◌}
use hub_kubernetes_agent.Model.Json.{Json}
use hub_kubernetes_agent.Model.Command.{
  ResourceYamlSpec, PostgresqlDiagnosticSpec, WorkloadResourcesSpec, RolloutRestartSpec, ScaleSpec,
  DrainNodeSpec, SelfUpdateSpec, UpdateAgentSpec,
}
use hub_kubernetes_agent.Model.Result.{Command, CommandResult, simple}
use hub_kubernetes_agent.Executor.Api.{Cluster, Handler, read}
use hub_kubernetes_agent.Executor.Gate.{Config}
use hub_kubernetes_agent.Executor.Scale.{scale_workload}
use hub_kubernetes_agent.Executor.Rollout.{rollout_restart}
use hub_kubernetes_agent.Executor.Drain.{drain_node}
use hub_kubernetes_agent.Executor.Resources.{preview_workload_resources, apply_workload_resources}
use hub_kubernetes_agent.Executor.Update.{self_update, update_agent}
use hub_kubernetes_agent.Executor.Yaml.{get_resource_yaml, diagnose_postgresql}

-- What is not the executor's own: `serde_json::from_value` for each specification, the serializer of
-- YAML, and the decimal digits of a number.
pub record Formats : Type 0 where
  pub resource_yaml : Json → Result String ResourceYamlSpec
  pub postgresql_diagnostic : Json → Result String PostgresqlDiagnosticSpec
  pub workload_resources : Json → Result String WorkloadResourcesSpec
  pub rollout_restart : Json → Result String RolloutRestartSpec
  pub scale : Json → Result String ScaleSpec
  pub drain_node : Json → Result String DrainNodeSpec
  pub self_update : Json → Result String SelfUpdateSpec
  pub update_agent : Json → Result String UpdateAgentSpec
  pub to_yaml : Json → Result String String
  pub show : ℕ → String

unfoldable pub parse_spec : {A : Type 0} → (Json → Result String A) → Command → Result String A
parse_spec from_value cmd = elim (from_value cmd.spec) [
  | ok spec ↦ ok spec
  | err e ↦ err ("invalid spec for kind " <> cmd.kind <> ": " <> e)
]

module _ (formats : Formats) (cluster : Cluster) (cfg : Config) (fuel : ℕ) where
  -- An answer that takes the time alone.
  unfoldable pub answer : Command → String → String → Handler
  unfolding read pure ◌>>=◌
  answer cmd status message = do
    now ← read cluster.now_ms
    pure (simple now cmd.id status (some message))

  unfoldable pub spec_error : Command → String → Handler
  unfolding answer
  spec_error cmd message = answer cmd "error" message

  -- `match parse_spec(cmd) { Ok(spec) => …, Err(e) => spec_error(cmd, e) }`
  unfoldable pub with_spec : {A : Type 0} → Command → Result String A → (A → Handler) → Handler
  unfolding spec_error
  with_spec cmd (ok spec) handler = handler spec
  with_spec cmd (err e) handler = spec_error cmd e

  -- `if !self.cfg.actions_enabled { return … }`
  unfoldable pub if_actions_enabled : Command → Handler → Handler
  unfolding answer
  if_actions_enabled cmd handler =
      if not cfg.actions_enabled
      then answer cmd "skipped" "agent in read-only mode (ACTION_OPERATOR_ENABLED=false)"
      else handler

  unfoldable pub execute_inner : Command → Handler
  unfolding parse_spec with_spec if_actions_enabled answer
  execute_inner cmd =
      if cmd.kind == "get_resource_yaml"
      then with_spec cmd (parse_spec formats.resource_yaml cmd)
          (get_resource_yaml formats.show formats.to_yaml cluster cfg cmd.id)
      else if cmd.kind == "diagnose_postgresql"
      then if not cfg.readonly_commands_enabled
        then answer cmd "skipped"
            "agent read-only commands disabled (POSTGRESQL_READONLY_COMMANDS_ENABLED=false)"
        else with_spec cmd (parse_spec formats.postgresql_diagnostic cmd)
            (diagnose_postgresql cluster cfg cmd.id)
      else if cmd.kind == "preview_workload_resources"
      then if_actions_enabled cmd (
          with_spec cmd (parse_spec formats.workload_resources cmd)
            (preview_workload_resources formats.show cluster cfg cmd.id))
      else if cmd.kind == "apply_workload_resources"
      then if_actions_enabled cmd (
          with_spec cmd (parse_spec formats.workload_resources cmd)
            (apply_workload_resources formats.show cluster cfg cmd.id))
      else if cmd.kind == "rollout_restart"
      then if_actions_enabled cmd (
          with_spec cmd (parse_spec formats.rollout_restart cmd)
            (rollout_restart cluster cfg cmd.id fuel))
      else if cmd.kind == "scale"
      then if_actions_enabled cmd
          (with_spec cmd (parse_spec formats.scale cmd) (scale_workload cluster cfg cmd.id))
      else if cmd.kind == "drain_node"
      then if_actions_enabled cmd
          (with_spec cmd (parse_spec formats.drain_node cmd) (drain_node cluster cfg cmd.id fuel))
      else if cmd.kind == "self_update"
      then if_actions_enabled cmd (
          with_spec cmd (parse_spec formats.self_update cmd)
            (self_update formats.show cluster cfg cmd.id))
      else if cmd.kind == "update_agent"
      then if_actions_enabled cmd (
          with_spec cmd (parse_spec formats.update_agent cmd)
            (update_agent formats.show cluster cfg cmd.id))
      else answer cmd "unknown" ("unknown command kind: " <> cmd.kind)
