-- ===== src/Examples/Commands.antt =====
-- The deduplication at a few commands.
use hub_kubernetes_agent.Prelude.{ℕ, ◌≤◌, ◌≡◌, refl, some, [], ◌∷◌, true, false, ◌≢◌, eq_iff}
use hub_kubernetes_agent.Model.Result.{Command, simple}
use hub_kubernetes_agent.Executor.Dedup.{empty_state, dedup_begin, dedup_finish, execute}
use hub_kubernetes_agent.Executor.Dedup.Traces.{
  enter, leave, run, starts, starts_at_most_once, repeat_is_answered,
}
use hub_kubernetes_agent.Executor.Dedup.Again.{execute_again}
use hub_kubernetes_agent.Examples.Data.{cmd, result, other_result, run_counting}

-- The command comes in three times, between and after another task's end and its own.
starts_at_most_once_example :
    starts "cmd-1" empty_state
      (enter 1 cmd ∷ leave other_result ∷ enter 2 cmd ∷ leave result ∷ enter 3 cmd ∷ [])
    ≤ 1
starts_at_most_once_example =
    starts_at_most_once "cmd-1" empty_state
      (enter 1 cmd ∷ leave other_result ∷ enter 2 cmd ∷ leave result ∷ enter 3 cmd ∷ [])

same_id : cmd.id ≡ result.command_id
unfolding simple
same_id = refl

false_is_true : false ≢ true
false_is_true = λ h. cc

not_the_command : other_result.command_id ≢ result.command_id
unfolding simple
not_the_command = λ h. false_is_true ((eq_iff "cmd-2" "cmd-1").1 h)

repeat_is_answered_example :
    dedup_begin 5 cmd
      (run (dedup_finish result empty_state) (enter 2 cmd ∷ leave other_result ∷ []))
    ≡ (some result, run (dedup_finish result empty_state) (enter 2 cmd ∷ leave other_result ∷ []))
repeat_is_answered_example =
    repeat_is_answered result empty_state (enter 2 cmd ∷ leave other_result ∷ []) 5 cmd same_id
      (not_the_command, tt)

answers_its_id : (c : Command) (n : ℕ) → (run_counting c n).0.command_id ≡ c.id
unfolding simple
answers_its_id c n = refl

execute_again_example :
    execute (λ n. n) run_counting cmd (execute (λ n. n) run_counting cmd empty_state 7).1 9 ≡ (
      (execute (λ n. n) run_counting cmd empty_state 7).0,
      (execute (λ n. n) run_counting cmd empty_state 7).1,
      9,
    )
execute_again_example = execute_again (λ n. n) run_counting cmd empty_state 7 9 answers_its_id refl
