-- ===== src/Executor/Gate/Quiet.antt =====
-- executor.rs: what asks and changes nothing: a history whose events are all reads and dry runs.
use hub_kubernetes_agent.Prelude.{◌≡◌, String, Option, false, All, Result}
use hub_kubernetes_agent.Exec.Keeps.{Keeps, keeps_rules}
use hub_kubernetes_agent.Model.Command.{ExecutionMode, WorkloadResourcesSpec}
use hub_kubernetes_agent.Executor.Api.{Cluster, History, Event, request, read, tick, is_mutating}
use hub_kubernetes_agent.Executor.Gate.{
  Config, ensure_effective_policy_allows, ensure_cluster_action_allowed, return_error,
  return_simple_error,
}

abbrev pub IsQuiet : History → Type 0
IsQuiet h = All (λ event. is_mutating event ≡ false) h

pub Keeps-request :
    {E A : Type 0} (event : Event) (answer : History → Result E A)
    → is_mutating event ≡ false
    → Keeps IsQuiet (request event answer)
unfolding request
Keeps-request event answer q = record { at = λ h k. (q, k) }

pub Keeps-tick :
    {E : Type 0} (event : Event) → is_mutating event ≡ false → Keeps IsQuiet (tick {E = E} event)
unfolding tick
Keeps-tick event q = record { at = λ h k. (q, k) }

pub Keeps-read : {E A : Type 0} {P : History → Type 0} (f : History → A) → Keeps P (read {E = E} f)
unfolding read
Keeps-read f = record { at = λ h k. k }

pub ruleset quiet_rules = (keeps_rules, Keeps-request, Keeps-tick, Keeps-read)

module _ (cluster : Cluster) (cfg : Config) where
  pub ensure_effective_policy_allows-IsQuiet :
      (namespace kind : String) (target : Option String) (spec : Option WorkloadResourcesSpec)
      → Keeps IsQuiet (ensure_effective_policy_allows cluster cfg namespace kind target spec)
  unfolding ensure_effective_policy_allows
  ensure_effective_policy_allows-IsQuiet namespace kind target spec = search quiet_rules

  pub ensure_cluster_action_allowed-IsQuiet :
      (kind : String) → Keeps IsQuiet (ensure_cluster_action_allowed cluster cfg kind)
  unfolding ensure_cluster_action_allowed
  ensure_cluster_action_allowed-IsQuiet kind = search quiet_rules

  -- An early return asks nothing.
  pub return_error-Keeps :
      {A : Type 0} {P : History → Type 0} (command_id : String) (mode : ExecutionMode)
      (message : String)
      → Keeps P (return_error cluster cfg {A = A} command_id mode message)
  unfolding return_error
  return_error-Keeps command_id mode message = record { at = λ h k. k }

  pub return_simple_error-Keeps :
      {A : Type 0} {P : History → Type 0} (command_id message : String)
      → Keeps P (return_simple_error cluster cfg {A = A} command_id message)
  unfolding return_simple_error
  return_simple_error-Keeps command_id message = record { at = λ h k. k }
