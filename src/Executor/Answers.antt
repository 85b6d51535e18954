-- ===== src/Executor/Answers.antt =====
-- executor.rs: the results that the handlers send back.
pub mod Waits
pub mod Reads
pub mod Changes
use hub_kubernetes_agent.Prelude.{ℕ, ◌≡◌, refl, String, Option, some, Bool, true, false}
use hub_kubernetes_agent.Exec.{Exec}
use hub_kubernetes_agent.Exec.Yields.{NoClaim, Outcome, returns, fails, Yields, yields_rules}
use hub_kubernetes_agent.Model.Command.{ExecutionMode}
use hub_kubernetes_agent.Model.Result.{CommandResult, simple}
use hub_kubernetes_agent.Executor.Api.{
  Cluster, History, Early, returned, out_of_fuel, Handler, read, tick, Event,
}
use hub_kubernetes_agent.Executor.Gate.{Config, command_error, return_error, return_simple_error}

-- The statuses that the executor sends.
pub data IsStatus : String → Type 0 where
  is_ok : IsStatus "ok"
  is_error : IsStatus "error"
  is_skipped : IsStatus "skipped"
  is_unknown : IsStatus "unknown"

-- An answer to the command: its id, and a status of the four.
pub record IsAnswer (command_id : String) (result : CommandResult) : Type 0 where
  pub named : result.command_id ≡ command_id
  pub status : IsStatus result.status

-- An early return is an answer too; a wait may run out of fuel.
pub data IsEarlyAnswer (waits : Bool) (command_id : String) : Early → Type 0 where
  early : (r : CommandResult) → IsAnswer command_id r → IsEarlyAnswer waits command_id (returned r)
  unfinished : waits ≡ true → IsEarlyAnswer waits command_id out_of_fuel

-- All that a handler sends back is an answer.
abbrev pub Answers : Bool → String → Handler → Type 0
Answers waits command_id handler =
    Yields (IsEarlyAnswer waits command_id) (IsAnswer command_id) handler

-- The steps before the end: only an early return sends anything.
abbrev pub StepAnswers : {A : Type 0} → Bool → String → Exec History Early A → Type 0
StepAnswers waits command_id step = Yields (IsEarlyAnswer waits command_id) NoClaim step

pub IsAnswer-ok :
    (command_id : String) (r : CommandResult)
    → r.command_id ≡ command_id
    → r.status ≡ "ok"
    → IsAnswer command_id r
IsAnswer-ok command_id r named s = record { named = named; status = rw s is_ok }

pub IsAnswer-error :
    (command_id : String) (r : CommandResult)
    → r.command_id ≡ command_id
    → r.status ≡ "error"
    → IsAnswer command_id r
IsAnswer-error command_id r named s = record { named = named; status = rw s is_error }

pub Yields-read :
    {E A : Type 0} {Q : E → Type 0} (f : History → A) → Yields Q NoClaim (read {E = E} f)
unfolding read
Yields-read f = record { at = λ h. returns (f h) (record {}) }

pub Yields-tick :
    {E : Type 0} {Q : E → Type 0} (event : Event) → Yields Q NoClaim (tick {E = E} event)
unfolding tick
Yields-tick event = record { at = λ h. returns tt (record {}) }

module _ (cluster : Cluster) (cfg : Config) {waits : Bool} {A : Type 0} {P : A → Type 0}
    (command_id : String) where
  pub return_error-Yields :
      (mode : ExecutionMode) (message : String)
      → Yields (IsEarlyAnswer waits command_id) P (return_error cluster cfg command_id mode message)
  unfolding return_error command_error simple
  return_error-Yields mode message = record {
    at = λ h. fails _ (early _ (record { named = refl; status = is_error }));
  }

  pub return_simple_error-Yields :
      (message : String)
      → Yields
          (IsEarlyAnswer waits command_id)
          P
          (return_simple_error cluster cfg command_id message)
  unfolding return_simple_error simple
  return_simple_error-Yields message = record {
    at = λ h. fails _ (early _ (record { named = refl; status = is_error }));
  }

pub ruleset answer_rules =
    (yields_rules, Yields-read, Yields-tick, return_error-Yields, return_simple_error-Yields)
