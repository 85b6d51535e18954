-- ===== src/Executor/Answers/Waits.antt =====
-- executor.rs: the results of the handlers that wait.
use hub_kubernetes_agent.Prelude.{
  ℕ, zero, suc, ◌≡◌, refl, String, Option, List, [], ◌∷◌, Bool, true,
}
use hub_kubernetes_agent.Exec.Yields.{Yields-bind}
use hub_kubernetes_agent.Model.Objects.{Node, Pod}
use hub_kubernetes_agent.Model.Command.{RolloutRestartSpec, DrainNodeSpec}
use hub_kubernetes_agent.Model.Result.{CommandResult, simple}
use hub_kubernetes_agent.Model.Json.{Json}
use hub_kubernetes_agent.Executor.Api.{Cluster, out_of_fuel}
use hub_kubernetes_agent.Executor.Gate.{Config}
use hub_kubernetes_agent.Executor.Answers.{
  Answers, StepAnswers, IsEarlyAnswer, unfinished, IsAnswer-ok, IsAnswer-error, answer_rules,
}
use hub_kubernetes_agent.Executor.Rollout.{
  rollout_restart, rollout_checked, rollout_apply, recorded, verification_failed, WaitError, failed,
  exhausted,
}
use hub_kubernetes_agent.Executor.Drain.{
  drain_node, drain_named, drain_listed, drain_pods, wait_drained, evict_all, evict_one, Drained,
  cordon,
}
use hub_kubernetes_agent.Executor.Drain.Plan.{Classified}

unfinished_answer : (command_id : String) → IsEarlyAnswer true command_id out_of_fuel
unfinished_answer command_id = unfinished refl

module _ (cluster : Cluster) (cfg : Config) (command_id : String) (node : String)
    (spec : DrainNodeSpec) where
  evict_all-Answers :
      (grace : Option ℕ) (pods : List (String × String))
      → StepAnswers true command_id (evict_all cluster cfg command_id spec node grace pods)
  unfolding evict_all evict_one
  evict_all-Answers grace [] = search answer_rules
  evict_all-Answers grace ((namespace, name) ∷ rest) =
      Yields-bind (evict_one cluster cfg command_id spec node grace namespace name)
        (λ _. evict_all cluster cfg command_id spec node grace rest) (search answer_rules)
        (λ _. evict_all-Answers grace rest)

  wait_drained-Answers :
      (fuel deadline : ℕ) (before : Drained)
      → StepAnswers true command_id
          (wait_drained cluster cfg command_id spec node fuel deadline before)
  unfolding wait_drained
  wait_drained-Answers zero deadline before = search (answer_rules, unfinished_answer)
  wait_drained-Answers (suc fuel) deadline before =
      search (answer_rules, wait_drained-Answers fuel) depth 16

  drain_pods-Answers :
      (fuel timeout : ℕ) (grace : Option ℕ) (unschedulable : Bool) (planned : Classified)
      → Answers true command_id
          (drain_pods cluster cfg command_id spec node fuel timeout grace unschedulable planned)
  unfolding drain_pods cordon simple
  drain_pods-Answers fuel timeout grace unschedulable planned =
      search (answer_rules, evict_all-Answers, wait_drained-Answers, IsAnswer-ok) depth 16

  drain_listed-Answers :
      (fuel timeout : ℕ) (grace : Option ℕ) (found : Node) (pods : List Pod)
      → Answers true command_id
          (drain_listed cluster cfg command_id spec node fuel timeout grace found pods)
  unfolding drain_listed
  drain_listed-Answers fuel timeout grace found pods = search (answer_rules, drain_pods-Answers)

  drain_named-Answers :
      (fuel : ℕ) → Answers true command_id (drain_named cluster cfg command_id spec node fuel)
  unfolding drain_named
  drain_named-Answers fuel = search (answer_rules, drain_listed-Answers) depth 16

module _ (cluster : Cluster) (cfg : Config) (command_id : String) (fuel : ℕ) where
  pub drain_node-Answers :
      (spec : DrainNodeSpec) → Answers true command_id (drain_node cluster cfg command_id fuel spec)
  unfolding drain_node
  drain_node-Answers spec = search (answer_rules, drain_named-Answers)

  verification_failed-Answers :
      (result : CommandResult) (reason : WaitError)
      → result.command_id ≡ command_id
      → Answers true command_id (verification_failed cluster cfg command_id fuel result reason)
  unfolding verification_failed
  verification_failed-Answers result (failed message) named = search (answer_rules, IsAnswer-error)
  verification_failed-Answers result exhausted named = search (answer_rules, unfinished_answer)

  rollout_apply-Answers :
      (spec : RolloutRestartSpec) (patch : Json) (result : CommandResult)
      → result.command_id ≡ command_id
      → result.status ≡ "ok"
      → Answers true command_id (rollout_apply cluster cfg command_id fuel spec patch result)
  unfolding rollout_apply recorded
  rollout_apply-Answers spec patch result named status =
      search (answer_rules, verification_failed-Answers, IsAnswer-ok) depth 16

  rollout_checked-Answers :
      (spec : RolloutRestartSpec)
      → Answers true command_id (rollout_checked cluster cfg command_id fuel spec)
  unfolding rollout_checked simple
  rollout_checked-Answers spec = search (answer_rules, rollout_apply-Answers, IsAnswer-ok) depth 16

  pub rollout_restart-Answers :
      (spec : RolloutRestartSpec)
      → Answers true command_id (rollout_restart cluster cfg command_id fuel spec)
  unfolding rollout_restart
  rollout_restart-Answers spec = search (answer_rules, rollout_checked-Answers) depth 16
