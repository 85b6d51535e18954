-- ===== src/Executor/Dispatch/Answered.antt =====
-- executor.rs: that every command is answered.
use hub_kubernetes_agent.Prelude.{
  ℕ, suc, ◌+◌, ◌*◌, ◌≤◌, ◌<◌, ◌≡◌, ◌≢◌, refl, String, some, Bool, true, false, if◌then◌else◌,
  Result, ok, err,
}
use hub_kubernetes_agent.Exec.Yields.{Outcome, returns, fails}
use hub_kubernetes_agent.Model.Result.{Command, CommandResult, simple}
use hub_kubernetes_agent.Model.Command.{DrainNodeSpec, RolloutRestartSpec}
use hub_kubernetes_agent.Executor.Api.{
  Cluster, History, Early, returned, out_of_fuel, Handler, finish,
}
use hub_kubernetes_agent.Executor.Clock.{IsClock, LosesAtMost}
use hub_kubernetes_agent.Executor.Gate.{Config}
use hub_kubernetes_agent.Executor.Answers.{
  IsStatus, is_error, is_skipped, is_unknown, IsAnswer, IsEarlyAnswer, early, unfinished, Answers,
}
use hub_kubernetes_agent.Executor.Answers.Reads.{
  get_resource_yaml-Answers, diagnose_postgresql-Answers,
}
use hub_kubernetes_agent.Executor.Answers.Changes.{
  scale_workload-Answers, preview_workload_resources-Answers, apply_workload_resources-Answers,
  self_update-Answers, update_agent-Answers,
}
use hub_kubernetes_agent.Executor.Answers.Waits.{drain_node-Answers, rollout_restart-Answers}
use hub_kubernetes_agent.Executor.Drain.{drain_node}
use hub_kubernetes_agent.Executor.Rollout.{rollout_restart, rollout_timeout_ms}
use hub_kubernetes_agent.Executor.Drain.Finishes.{drain_node-finishes}
use hub_kubernetes_agent.Executor.Rollout.Finishes.{rollout_restart-finishes}
use hub_kubernetes_agent.Executor.Dispatch.{
  Formats, answer, with_spec, if_actions_enabled, execute_inner,
}

-- From this state, the handler ends with an answer to the command.
pub record AnswersAt (command_id : String) (h : History) (handler : Handler) : Type 0 where
  pub at : Outcome (IsEarlyAnswer false command_id) (IsAnswer command_id) (handler h).0

finished :
    {command_id : String} (r : Result Early CommandResult)
    → Outcome (IsEarlyAnswer true command_id) (IsAnswer command_id) r
    → r ≢ err out_of_fuel
    → Outcome (IsEarlyAnswer false command_id) (IsAnswer command_id) r
finished (ok result) (returns _ a) apart = returns result a
finished (err (returned r)) (fails _ (early _ a)) apart = fails _ (early r a)
finished (err out_of_fuel) (fails _ (unfinished e)) apart = absurd (apart refl)

finish_apart :
    (r : Result Early CommandResult × History) (result : CommandResult)
    → (finish r).0 ≡ some result
    → r.0 ≢ err out_of_fuel
unfolding finish
finish_apart (ok a, h) result e = λ k. cc
finish_apart (err (returned a), h) result e = λ k. cc
finish_apart (err out_of_fuel, h) result e = cc

module _ {command_id : String} {h : History} where
  AnswersAt-if :
      (test : Bool) (m n : Handler)
      → AnswersAt command_id h m
      → AnswersAt command_id h n
      → AnswersAt command_id h (if test then m else n)
  AnswersAt-if true m n am an = am
  AnswersAt-if false m n am an = an

  Answers-AnswersAt : (m : Handler) → Answers false command_id m → AnswersAt command_id h m
  Answers-AnswersAt m ym = record { at = ym.at h }

  waited-AnswersAt :
      (m : Handler)
      → Answers true command_id m
      → (result : CommandResult) × ((finish (m h)).0 ≡ some result)
      → AnswersAt command_id h m
  waited-AnswersAt m ym (result, e) = record {
    at = finished (m h).0 (ym.at h) (finish_apart (m h) result e);
  }

module _ (formats : Formats) (cluster : Cluster) (cfg : Config) (fuel : ℕ) (cmd : Command)
    (h : History) where
  answer-AnswersAt :
      (status message : String)
      → IsStatus status
      → AnswersAt cmd.id h (answer formats cluster cfg fuel cmd status message)
  unfolding answer simple
  answer-AnswersAt status message known = record {
    at = returns _ (record { named = refl; status = known });
  }

  with_spec-AnswersAt :
      {A : Type 0} (outcome : Result String A) (handler : A → Handler)
      → ((spec : A) → AnswersAt cmd.id h (handler spec))
      → AnswersAt cmd.id h (with_spec formats cluster cfg fuel cmd outcome handler)
  unfolding with_spec
  with_spec-AnswersAt (ok spec) handler ah = ah spec
  with_spec-AnswersAt (err e) handler ah = answer-AnswersAt "error" e is_error

  if_actions_enabled-AnswersAt :
      (handler : Handler)
      → AnswersAt cmd.id h handler
      → AnswersAt cmd.id h (if_actions_enabled formats cluster cfg fuel cmd handler)
  unfolding if_actions_enabled
  if_actions_enabled-AnswersAt handler ah = search (AnswersAt-if, answer-AnswersAt, is_skipped)

ruleset dispatch_rules = (
  AnswersAt-if, Answers-AnswersAt, with_spec-AnswersAt, if_actions_enabled-AnswersAt,
  answer-AnswersAt, is_skipped, is_unknown,
)

module _ (formats : Formats) (cluster : Cluster) (cfg : Config) (back fuel : ℕ) (cmd : Command)
    (h : History) where
  drain_node-AnswersAt :
      IsClock cluster.instant_ms
      → 720 ≤ fuel
      → (spec : DrainNodeSpec) → AnswersAt cmd.id h (drain_node cluster cfg cmd.id (suc fuel) spec)
  drain_node-AnswersAt law enough spec =
      waited-AnswersAt (drain_node cluster cfg cmd.id (suc fuel) spec)
        (drain_node-Answers cluster cfg cmd.id (suc fuel) spec)
        (drain_node-finishes cluster cfg cmd.id fuel spec h law enough)

  rollout_restart-AnswersAt :
      IsClock cluster.instant_ms
      → LosesAtMost back cluster.instant_ms cluster.now_ms
      → rollout_timeout_ms + back < 2_000 * fuel
      → (spec : RolloutRestartSpec)
      → AnswersAt cmd.id h (rollout_restart cluster cfg cmd.id (suc fuel) spec)
  rollout_restart-AnswersAt law lost enough spec =
      waited-AnswersAt (rollout_restart cluster cfg cmd.id (suc fuel) spec)
        (rollout_restart-Answers cluster cfg cmd.id (suc fuel) spec)
        (rollout_restart-finishes cluster cfg cmd.id back fuel spec h law lost enough)

  execute_inner-AnswersAt :
      IsClock cluster.instant_ms
      → LosesAtMost back cluster.instant_ms cluster.now_ms
      → 720 ≤ fuel
      → rollout_timeout_ms + back < 2_000 * fuel
      → AnswersAt cmd.id h (execute_inner formats cluster cfg (suc fuel) cmd)
  unfolding execute_inner
  execute_inner-AnswersAt instant lost enough rounds =
      search
        (
          dispatch_rules,
          drain_node-AnswersAt instant enough,
          rollout_restart-AnswersAt instant lost rounds,
          get_resource_yaml-Answers,
          diagnose_postgresql-Answers,
          scale_workload-Answers,
          preview_workload_resources-Answers,
          apply_workload_resources-Answers,
          self_update-Answers,
          update_agent-Answers,
        )
        depth 20

finish-IsAnswer :
    (command_id : String) (r : Result Early CommandResult × History)
    → Outcome (IsEarlyAnswer false command_id) (IsAnswer command_id) r.0
    → (result : CommandResult) × ((finish r).0 ≡ some result) × IsAnswer command_id result
unfolding finish
finish-IsAnswer command_id (ok result, h) (returns _ a) = (result, refl, a)
finish-IsAnswer command_id (err (returned result), h) (fails _ (early _ a)) = (result, refl, a)
finish-IsAnswer command_id (err out_of_fuel, h) (fails _ (unfinished e)) = cc

-- Every command is answered, whatever its kind and specification, whatever the cluster answers and
-- whatever is switched off: where the monotonic clock never goes back, sleeps last as long as they
-- were asked to, and the wall clock is set back against the monotonic one by no more than some time,
-- execute_inner has a result, with fuel for 721 rounds of the wait of a drain and for the rounds of
-- the wait of a restart that two minutes and that time hold. The result carries the id of the command
-- and one of the statuses ok, error, skipped and unknown, and never not_implemented.
pub execute_inner-IsAnswer :
    (formats : Formats) (cluster : Cluster) (cfg : Config) (back fuel : ℕ) (cmd : Command)
    (h : History)
    → IsClock cluster.instant_ms
    → LosesAtMost back cluster.instant_ms cluster.now_ms
    → 720 ≤ fuel
    → rollout_timeout_ms + back < 2_000 * fuel
    → (result : CommandResult) × ((finish (execute_inner formats cluster cfg (suc fuel) cmd h)).0
        ≡ some result)
      × IsAnswer cmd.id result
execute_inner-IsAnswer formats cluster cfg back fuel cmd h instant lost enough rounds =
    finish-IsAnswer cmd.id (execute_inner formats cluster cfg (suc fuel) cmd h)
      (execute_inner-AnswersAt formats cluster cfg back fuel cmd h instant lost enough rounds).at
