-- ===== src/Executor/Dedup.antt =====
-- executor.rs: commands that were sent twice run once. `COMMAND_DEDUP` is a map of finished commands
-- and a set of running ones, behind one lock.
pub mod Traces
pub mod Again
use text.Mathlib.Text.{◌==◌}
use hub_kubernetes_agent.Prelude.{
  ℕ, String, Option, none, some, List, [], ◌∷◌, Bool, not, if◌then◌else◌, contains, filter, lookup,
}
use hub_kubernetes_agent.Model.Result.{Command, CommandResult, simple}

pub record CommandDedupState : Type 0 where
  pub completed : List (String × CommandResult)
  pub running : List String

abbrev pub empty_state : CommandDedupState
empty_state = record { completed = []; running = [] }

-- none lets the command run; the time is that of the call.
unfoldable pub dedup_begin :
    ℕ → Command → CommandDedupState → Option CommandResult × CommandDedupState
dedup_begin now_ms cmd state = elim (lookup cmd.id state.completed) [
  | some result ↦ (some result, state)
  | none ↦
      if contains state.running cmd.id
      then (some (simple now_ms cmd.id "skipped" (some "command already running")), state)
      else (none, record state { running = cmd.id ∷ state.running })
]

unfoldable pub dedup_finish : CommandResult → CommandDedupState → CommandDedupState
dedup_finish result state = record {
  completed = (result.command_id, result) ∷ state.completed;
  running = filter (λ id. not (id == result.command_id)) state.running;
}

-- `Executor::execute`, around what runs the command. The state of the outside is `S`.
module _ {S : Type 0} (now_ms : S → ℕ) (execute_inner : Command → S → CommandResult × S) where
  run_command : Command → CommandDedupState → S → CommandResult × CommandDedupState × S
  unfolding dedup_finish
  run_command cmd state s =
      let (result, s') = execute_inner cmd s in (result, dedup_finish result state, s')

  unfoldable pub execute : Command → CommandDedupState → S → CommandResult × CommandDedupState × S
  unfolding dedup_begin run_command
  execute cmd state s =
      let (early, state') = dedup_begin (now_ms s) cmd state in
      elim early [ some result ↦ (result, state', s) | none ↦ run_command cmd state' s ]
