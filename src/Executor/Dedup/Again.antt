-- ===== src/Executor/Dedup/Again.antt =====
-- executor.rs: a command that is executed again.
use hub_kubernetes_agent.Prelude.{
  ℕ, ◌≡◌, subst, none, some, ◌∷◌, false, contains, lookup, Option-cases, inl, inr,
}
use hub_kubernetes_agent.Model.Result.{Command, CommandResult}
use hub_kubernetes_agent.Executor.Dedup.{
  CommandDedupState, dedup_begin, dedup_finish, execute, run_command,
}
use hub_kubernetes_agent.Executor.Dedup.Traces.{finish_found}

module _ {S : Type 0} (now_ms : S → ℕ) (execute_inner : Command → S → CommandResult × S) where
  execute_answered :
      (cmd : Command) (state : CommandDedupState) (s : S) (r : CommandResult)
      → lookup cmd.id state.completed ≡ some r
      → execute now_ms execute_inner cmd state s ≡ (r, state, s)
  unfolding execute
  execute_answered cmd state s r found = rw (found, execute) (rw (found, dedup_begin))

  execute_run :
      (cmd : Command) (state : CommandDedupState) (s : S)
      → lookup cmd.id state.completed ≡ none
      → contains state.running cmd.id ≡ false
      → execute now_ms execute_inner cmd state s ≡ (
        (execute_inner cmd s).0,
        dedup_finish (execute_inner cmd s).0 (record state { running = cmd.id ∷ state.running }),
        (execute_inner cmd s).1,
      )
  unfolding execute
  execute_run cmd state s fresh idle =
      rw (fresh, idle, execute) (rw (fresh, dedup_begin, idle, run_command))

  -- A command that is not running is run, or answered, once and for all: to execute it again, at any
  -- later time, gives the same result and changes neither the records nor the outside, if what runs
  -- it answers under its id.
  pub execute_again :
      (cmd : Command) (state : CommandDedupState) (s later : S)
      → ((c : Command) (t : S) → (execute_inner c t).0.command_id ≡ c.id)
      → contains state.running cmd.id ≡ false
      → let (result, state', s') = execute now_ms execute_inner cmd state s in
        execute now_ms execute_inner cmd state' later ≡ (result, state', later)
  execute_again cmd state s later answers idle =
      elim (Option-cases (lookup cmd.id state.completed)) [
        | inr (r, found) ↦
            let first = execute_answered cmd state s r found in
            rw first (execute_answered cmd state later r found)
        | inl fresh ↦
            let result = (execute_inner cmd s).0 in
            let begun : CommandDedupState = record state { running = cmd.id ∷ state.running } in
            let found : lookup cmd.id (dedup_finish result begun).completed ≡ some result =
              subst (λ x. lookup x (dedup_finish result begun).completed ≡ some result)
                (answers cmd s) (finish_found result begun) in
            let first = execute_run cmd state s fresh idle in
            rw first (execute_answered cmd (dedup_finish result begun) later result found)
      ]
