-- ===== src/Executor/Answers/Changes.antt =====
-- executor.rs: the results of the handlers that change the cluster and do not wait.
use hub_kubernetes_agent.Prelude.{List, ℕ, refl, String, false}
use hub_kubernetes_agent.Exec.Yields.{Yields, fails}
use hub_kubernetes_agent.Model.Command.{
  ScaleSpec, WorkloadResourcesSpec, SelfUpdateSpec, UpdateAgentSpec,
}
use hub_kubernetes_agent.Model.Result.{simple}
use hub_kubernetes_agent.Executor.Api.{Cluster}
use hub_kubernetes_agent.Executor.Gate.{Config}
use hub_kubernetes_agent.Executor.Answers.{
  Answers, IsEarlyAnswer, early, is_error, IsAnswer-ok, IsAnswer-error, answer_rules,
}
use hub_kubernetes_agent.Executor.Scale.{scale_workload}
use hub_kubernetes_agent.Executor.Resources.{preview_workload_resources, apply_workload_resources}
use hub_kubernetes_agent.Executor.Update.{
  self_update, update_agent, update_agent_error, update_agent_apply, update_agent_report,
  update_agent_image,
}

module _ (cluster : Cluster) (cfg : Config) (command_id : String) where
  pub scale_workload-Answers :
      (spec : ScaleSpec) → Answers false command_id (scale_workload cluster cfg command_id spec)
  unfolding scale_workload simple
  scale_workload-Answers spec = search (answer_rules, IsAnswer-ok) depth 16

module _ (show : ℕ → String) (cluster : Cluster) (cfg : Config) (command_id : String) where
  pub preview_workload_resources-Answers :
      (spec : WorkloadResourcesSpec)
      → Answers false command_id (preview_workload_resources show cluster cfg command_id spec)
  unfolding preview_workload_resources simple
  preview_workload_resources-Answers spec =
      search (answer_rules, IsAnswer-ok, IsAnswer-error) depth 16

  pub apply_workload_resources-Answers :
      (spec : WorkloadResourcesSpec)
      → Answers false command_id (apply_workload_resources show cluster cfg command_id spec)
  unfolding apply_workload_resources simple
  apply_workload_resources-Answers spec =
      search (answer_rules, IsAnswer-ok, IsAnswer-error) depth 16

  pub self_update-Answers :
      (spec : SelfUpdateSpec)
      → Answers false command_id (self_update show cluster cfg command_id spec)
  unfolding self_update simple
  self_update-Answers spec = search (answer_rules, IsAnswer-ok) depth 16

  update_agent_error-Yields :
      {A : Type 0} {P : A → Type 0} (message : String)
      → Yields
          (IsEarlyAnswer false command_id)
          P
          (update_agent_error show cluster cfg command_id message)
  unfolding update_agent_error simple
  update_agent_error-Yields message = record {
    at = λ h. fails _ (early _ (record { named = refl; status = is_error }));
  }

  update_agent_apply-Answers :
      (image before_image : String) (warnings : List String)
      → Answers false command_id
          (update_agent_apply show cluster cfg command_id image before_image warnings)
  unfolding update_agent_apply update_agent_report simple
  update_agent_apply-Answers image before_image warnings =
      search (answer_rules, IsAnswer-ok, update_agent_error-Yields) depth 16

  update_agent_image-Answers :
      (image : String)
      → Answers false command_id (update_agent_image show cluster cfg command_id image)
  unfolding update_agent_image
  update_agent_image-Answers image =
      search (answer_rules, update_agent_error-Yields, update_agent_apply-Answers) depth 20

  pub update_agent-Answers :
      (spec : UpdateAgentSpec)
      → Answers false command_id (update_agent show cluster cfg command_id spec)
  unfolding update_agent
  update_agent-Answers spec =
      search (answer_rules, update_agent_error-Yields, update_agent_image-Answers) depth 20
