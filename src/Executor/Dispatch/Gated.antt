-- ===== src/Executor/Dispatch/Gated.antt =====
-- executor.rs: when a command changes the cluster.
use hub_kubernetes_agent.Prelude.{
  ℕ, ◌≡◌, refl, ◌==◌, eq_iff, String, none, some, Bool, true, false, not, if◌then◌else◌, Result, ok,
  err, trim,
}
use hub_kubernetes_agent.Exec.Keeps.{Keeps}
use hub_kubernetes_agent.Model.Command.{
  WorkloadResourcesSpec, RolloutRestartSpec, ScaleSpec, DrainNodeSpec, UpdateAgentSpec,
  ResourceYamlSpec, PostgresqlDiagnosticSpec,
}
use hub_kubernetes_agent.Model.Result.{Command}
use hub_kubernetes_agent.Executor.Api.{Cluster, History, Handler}
use hub_kubernetes_agent.Executor.Policy.{update_agent_namespace}
use hub_kubernetes_agent.Executor.Gate.{Config, is_preview}
use hub_kubernetes_agent.Executor.Gate.Quiet.{
  IsQuiet, quiet_rules, ensure_effective_policy_allows-IsQuiet, return_error-Keeps,
}
use hub_kubernetes_agent.Executor.Gate.Authorized.{IsAuthorized}
use hub_kubernetes_agent.Executor.Scale.{scale_workload}
use hub_kubernetes_agent.Executor.Scale.Live.{IsScaleAllowed, scale_workload-IsScaleAllowed}
use hub_kubernetes_agent.Executor.Rollout.{rollout_restart}
use hub_kubernetes_agent.Executor.Rollout.Live.{rollout_restart-IsAuthorized}
use hub_kubernetes_agent.Executor.Drain.{drain_node}
use hub_kubernetes_agent.Executor.Drain.Live.{IsDrainAllowed, drain_node-IsDrainAllowed}
use hub_kubernetes_agent.Executor.Resources.{apply_workload_resources}
use hub_kubernetes_agent.Executor.Resources.Live.{
  IsSetAllowed, preview_workload_resources-IsQuiet, apply_workload_resources-IsSetAllowed,
}
use hub_kubernetes_agent.Executor.Update.{update_agent}
use hub_kubernetes_agent.Executor.Update.Live.{
  self_update-IsQuiet, UpdateOutcome, nothing_changed, image_set, update_agent-UpdateOutcome,
}
use hub_kubernetes_agent.Executor.Image.Valid.{IsAllowedImage}
use hub_kubernetes_agent.Executor.Yaml.{get_resource_yaml, diagnose_postgresql}
use hub_kubernetes_agent.Executor.Yaml.Reads.{
  YamlRead, nothing_read, one_read, get_resource_yaml-YamlRead,
}
use hub_kubernetes_agent.Executor.Dispatch.{
  Formats, parse_spec, answer, with_spec, if_actions_enabled, execute_inner,
}

-- A command that may change the cluster, by its kind, with what its handler has checked.
pub data IsGranted (formats : Formats) (cluster : Cluster) (cfg : Config) (cmd : Command)
    (h : History) : Type 0 where
  restarts :
      (spec : RolloutRestartSpec)
      → cmd.kind ≡ "rollout_restart"
      → parse_spec formats.rollout_restart cmd ≡ ok spec
      → is_preview spec.execution.mode ≡ false
      → IsAuthorized cluster cfg spec.target.namespace "rollout_restart"
          (some spec.target.kind)
          none
          h
      → IsGranted formats cluster cfg cmd h
  scales :
      (spec : ScaleSpec)
      → cmd.kind ≡ "scale"
      → parse_spec formats.scale cmd ≡ ok spec
      → IsScaleAllowed cluster cfg spec h
      → IsGranted formats cluster cfg cmd h
  sets_resources :
      (spec : WorkloadResourcesSpec)
      → cmd.kind ≡ "apply_workload_resources"
      → parse_spec formats.workload_resources cmd ≡ ok spec
      → IsSetAllowed cluster cfg spec h
      → IsGranted formats cluster cfg cmd h
  drains :
      (spec : DrainNodeSpec)
      → cmd.kind ≡ "drain_node"
      → parse_spec formats.drain_node cmd ≡ ok spec
      → IsDrainAllowed cluster cfg spec h
      → IsGranted formats cluster cfg cmd h
  updates :
      (spec : UpdateAgentSpec)
      → cmd.kind ≡ "update_agent"
      → parse_spec formats.update_agent cmd ≡ ok spec
      → IsAuthorized cluster cfg update_agent_namespace "update_agent" none none h
      → IsAllowedImage (trim spec.image)
      → IsGranted formats cluster cfg cmd h

-- Whether a handler changes the cluster is a matter of what is granted.
record Gated (formats : Formats) (cluster : Cluster) (cfg : Config) (cmd : Command) (h : History)
    (handler : Handler) : Type 0 where
  at : ¬ IsQuiet (handler h).1 → (cfg.actions_enabled ≡ true) × IsGranted formats cluster cfg cmd h

module _ (formats : Formats) (cluster : Cluster) (cfg : Config) (cmd : Command) (h : History)
    (quiet : IsQuiet h) where
  Gated-if :
      (test : Bool) (m n : Handler)
      → (test ≡ true → Gated formats cluster cfg cmd h m)
      → Gated formats cluster cfg cmd h n
      → Gated formats cluster cfg cmd h (if test then m else n)
  Gated-if true m n gm gn = gm refl
  Gated-if false m n gm gn = gn

  Gated-unless :
      (test : Bool) (m n : Handler)
      → Gated formats cluster cfg cmd h m
      → (test ≡ true → Gated formats cluster cfg cmd h n)
      → Gated formats cluster cfg cmd h (if not test then m else n)
  Gated-unless true m n gm gn = gn refl
  Gated-unless false m n gm gn = gm

  Keeps-Gated : (m : Handler) → Keeps IsQuiet m → Gated formats cluster cfg cmd h m
  Keeps-Gated m km = record { at = λ changed. absurd (changed (km.at h quiet)) }

  answer-Gated :
      (fuel : ℕ) (status message : String)
      → Gated formats cluster cfg cmd h (answer formats cluster cfg fuel cmd status message)
  unfolding answer
  answer-Gated fuel status message = record { at = λ changed. absurd (changed quiet) }

  with_spec-Gated :
      (fuel : ℕ) {A : Type 0} (outcome : Result String A) (handler : A → Handler)
      → ((spec : A) → outcome ≡ ok spec → Gated formats cluster cfg cmd h (handler spec))
      → Gated formats cluster cfg cmd h (with_spec formats cluster cfg fuel cmd outcome handler)
  unfolding with_spec
  with_spec-Gated fuel (ok spec) handler gh = gh spec refl
  with_spec-Gated fuel (err e) handler gh = answer-Gated fuel "error" e

  if_actions_enabled-Gated :
      (fuel : ℕ) (handler : Handler)
      → (cfg.actions_enabled ≡ true → Gated formats cluster cfg cmd h handler)
      → Gated formats cluster cfg cmd h (if_actions_enabled formats cluster cfg fuel cmd handler)
  unfolding if_actions_enabled
  if_actions_enabled-Gated fuel handler gh =
      Gated-unless cfg.actions_enabled _ handler (answer-Gated fuel "skipped" _) gh

  rollout_restart-Gated :
      (fuel : ℕ)
      → cfg.actions_enabled ≡ true
      → (cmd.kind == "rollout_restart") ≡ true
      → (spec : RolloutRestartSpec) → parse_spec formats.rollout_restart cmd ≡ ok spec
      → Gated formats cluster cfg cmd h (rollout_restart cluster cfg cmd.id fuel spec)
  rollout_restart-Gated fuel on kind spec parsed = record {
    at = λ changed.
        let (live, authorized) =
          rollout_restart-IsAuthorized cluster cfg cmd.id fuel spec h quiet changed in
        (on, restarts spec ((eq_iff cmd.kind "rollout_restart").0 kind) parsed live authorized);
  }

  scale_workload-Gated :
      cfg.actions_enabled ≡ true
      → (cmd.kind == "scale") ≡ true
      → (spec : ScaleSpec) → parse_spec formats.scale cmd ≡ ok spec
      → Gated formats cluster cfg cmd h (scale_workload cluster cfg cmd.id spec)
  scale_workload-Gated on kind spec parsed = record {
    at = λ changed. (
      on,
      scales spec ((eq_iff cmd.kind "scale").0 kind) parsed
          (scale_workload-IsScaleAllowed cluster cfg cmd.id spec h quiet changed),
    );
  }

  apply_workload_resources-Gated :
      cfg.actions_enabled ≡ true
      → (cmd.kind == "apply_workload_resources") ≡ true
      → (spec : WorkloadResourcesSpec) → parse_spec formats.workload_resources cmd ≡ ok spec
      → Gated formats cluster cfg cmd h
          (apply_workload_resources formats.show cluster cfg cmd.id spec)
  apply_workload_resources-Gated on kind spec parsed = record {
    at = λ changed. (
      on,
      sets_resources spec ((eq_iff cmd.kind "apply_workload_resources").0 kind) parsed (
          apply_workload_resources-IsSetAllowed formats.show cluster cfg spec cmd.id h quiet
            changed),
    );
  }

  drain_node-Gated :
      (fuel : ℕ)
      → cfg.actions_enabled ≡ true
      → (cmd.kind == "drain_node") ≡ true
      → (spec : DrainNodeSpec) → parse_spec formats.drain_node cmd ≡ ok spec
      → Gated formats cluster cfg cmd h (drain_node cluster cfg cmd.id fuel spec)
  drain_node-Gated fuel on kind spec parsed = record {
    at = λ changed. (
      on,
      drains spec ((eq_iff cmd.kind "drain_node").0 kind) parsed
          (drain_node-IsDrainAllowed cluster cfg cmd.id fuel spec h quiet changed),
    );
  }

  updated_image :
      (spec : UpdateAgentSpec) (h' : History)
      → UpdateOutcome cluster cfg spec h h'
      → ¬ IsQuiet h'
      → (IsAuthorized cluster cfg update_agent_namespace "update_agent" none none h)
        × IsAllowedImage (trim spec.image)
  updated_image spec _ (nothing_changed h' still) changed = absurd (changed still)
  updated_image spec _ (image_set h' still authorized allowed) changed = (authorized, allowed)

  update_agent-Gated :
      cfg.actions_enabled ≡ true
      → (cmd.kind == "update_agent") ≡ true
      → (spec : UpdateAgentSpec) → parse_spec formats.update_agent cmd ≡ ok spec
      → Gated formats cluster cfg cmd h (update_agent formats.show cluster cfg cmd.id spec)
  update_agent-Gated on kind spec parsed = record {
    at = λ changed.
        let (authorized, allowed) =
          updated_image spec (update_agent formats.show cluster cfg cmd.id spec h).1
            (update_agent-UpdateOutcome formats.show cluster cfg cmd.id spec h quiet) changed in
        (on, updates spec ((eq_iff cmd.kind "update_agent").0 kind) parsed authorized allowed);
  }

  read-IsQuiet : (spec : ResourceYamlSpec) (h' : History) → YamlRead spec h h' → IsQuiet h'
  read-IsQuiet spec _ nothing_read = quiet
  read-IsQuiet spec _ (one_read target group version namespace _ _ _ _ _ _) = (refl, quiet)

  get_resource_yaml-Gated :
      (spec : ResourceYamlSpec)
      → Gated formats cluster cfg cmd h
          (get_resource_yaml formats.show formats.to_yaml cluster cfg cmd.id spec)
  get_resource_yaml-Gated spec = record {
    at = λ changed. absurd (
        changed (
          read-IsQuiet spec _
            (get_resource_yaml-YamlRead formats.show formats.to_yaml cluster cfg cmd.id spec h)));
  }

  diagnose_postgresql-IsQuiet :
      (spec : PostgresqlDiagnosticSpec)
      → Keeps IsQuiet (diagnose_postgresql cluster cfg cmd.id spec)
  unfolding diagnose_postgresql
  diagnose_postgresql-IsQuiet spec =
      search (quiet_rules, ensure_effective_policy_allows-IsQuiet, return_error-Keeps) depth 12

  execute_inner-Gated :
      (fuel : ℕ) → Gated formats cluster cfg cmd h (execute_inner formats cluster cfg fuel cmd)
  unfolding execute_inner
  execute_inner-Gated fuel =
      search
        (
          Gated-if, with_spec-Gated, if_actions_enabled-Gated, answer-Gated, Keeps-Gated,
          rollout_restart-Gated, scale_workload-Gated, apply_workload_resources-Gated,
          drain_node-Gated, update_agent-Gated, get_resource_yaml-Gated,
          diagnose_postgresql-IsQuiet, preview_workload_resources-IsQuiet, self_update-IsQuiet,
        )
        depth 24

-- A command that is executed after reads and dry runs alone changes the cluster only if actions are
-- switched on, its specification parses, and it is one of five kinds: a restart or a scale that is
-- no preview, resources that are to be applied, a drain, or an update of the agent; and then only
-- with what the handler of its kind demands, of which a policy that was then listed and that admits
-- the command is a part in each case.
pub execute_inner-IsGranted :
    (formats : Formats) (cluster : Cluster) (cfg : Config) (fuel : ℕ) (cmd : Command) (h : History)
    → IsQuiet h
    → ¬ IsQuiet (execute_inner formats cluster cfg fuel cmd h).1
    → (cfg.actions_enabled ≡ true) × IsGranted formats cluster cfg cmd h
execute_inner-IsGranted formats cluster cfg fuel cmd h quiet changed =
    (execute_inner-Gated formats cluster cfg cmd h quiet fuel).at changed
