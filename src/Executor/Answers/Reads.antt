-- ===== src/Executor/Answers/Reads.antt =====
-- executor.rs: the results of the handlers that only read.
use hub_kubernetes_agent.Prelude.{ℕ, String, Option, some, none, false, ok, Result}
use hub_kubernetes_agent.Exec.Yields.{Yields, NoClaim, returns}
use hub_kubernetes_agent.Model.Json.{Json}
use hub_kubernetes_agent.Model.Command.{ResourceYamlSpec, PostgresqlDiagnosticSpec}
use hub_kubernetes_agent.Model.Result.{simple}
use hub_kubernetes_agent.Executor.Api.{Cluster, History, Event, request}
use hub_kubernetes_agent.Executor.Gate.{Config}
use hub_kubernetes_agent.Executor.Answers.{Answers, IsAnswer-ok, answer_rules}
use hub_kubernetes_agent.Executor.Yaml.{
  get_resource_yaml, ResourceYamlTarget, fetch_target, fetch_split, fetch_yaml, render_yaml,
  read_failed, yaml_result, diagnose_postgresql,
}

-- A request that has an answer.
answered-Yields :
    {E A : Type 0} {Q : E → Type 0} (event : Event) (answer : History → A)
    → Yields Q NoClaim (request {E = E} event (λ h. ok (answer h)))
unfolding request
answered-Yields event answer = record { at = λ h. returns (answer h) (record {}) }

module _ (show : ℕ → String) (to_yaml : Json → Result String String) (cluster : Cluster)
    (cfg : Config) (command_id : String) where
  fetch_yaml-Answers :
      (api_version kind namespace name : String) (parts : String × String)
      → Answers false command_id
          (fetch_yaml show to_yaml cluster cfg command_id api_version kind namespace name parts)
  unfolding fetch_yaml render_yaml read_failed yaml_result simple
  fetch_yaml-Answers api_version kind namespace name (group, version) =
      search (answer_rules, IsAnswer-ok) depth 16

  fetch_split-Answers :
      (api_version kind namespace name : String) (parts : Option (String × String))
      → Answers false command_id
          (fetch_split show to_yaml cluster cfg command_id api_version kind namespace name parts)
  unfolding fetch_split
  fetch_split-Answers api_version kind namespace name none = search answer_rules
  fetch_split-Answers api_version kind namespace name (some parts) =
      search (answer_rules, fetch_yaml-Answers)

  fetch_target-Answers :
      (api_version kind : String) (namespace : Option String) (name : String)
      (target : Option ResourceYamlTarget)
      → Answers false command_id
          (fetch_target show to_yaml cluster cfg command_id api_version kind namespace name target)
  unfolding fetch_target
  fetch_target-Answers api_version kind namespace name none = search answer_rules
  fetch_target-Answers api_version kind namespace name (some target) =
      search (answer_rules, fetch_split-Answers)

  pub get_resource_yaml-Answers :
      (spec : ResourceYamlSpec)
      → Answers false command_id (get_resource_yaml show to_yaml cluster cfg command_id spec)
  unfolding get_resource_yaml
  get_resource_yaml-Answers spec = search (answer_rules, fetch_target-Answers)

module _ (cluster : Cluster) (cfg : Config) (command_id : String) where
  pub diagnose_postgresql-Answers :
      (spec : PostgresqlDiagnosticSpec)
      → Answers false command_id (diagnose_postgresql cluster cfg command_id spec)
  unfolding diagnose_postgresql simple
  diagnose_postgresql-Answers spec = search (answer_rules, answered-Yields, IsAnswer-ok) depth 16
