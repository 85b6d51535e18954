-- ===== src/Model/Result.antt =====
-- model.rs: the result that goes back to the Hub after a command, and the command itself.
use hub_kubernetes_agent.Prelude.{ℕ, String, Option, none, List, [], Bool}
use hub_kubernetes_agent.Model.Json.{Json}

pub record ActionVerification : Type 0 where
  pub status : String
  pub message : Option String
  pub observed_state : Option Json

-- `diagnostic` and `resource_yaml` are structured reports in the source; here they are the values
-- that they are sent as.
pub record CommandResult : Type 0 where
  pub command_id : String
  pub status : String
  pub message : Option String
  pub finished_at_ms : ℕ
  pub dry_run : Option Bool
  pub applied_patch : Option Json
  pub observed_before : Option Json
  pub observed_after : Option Json
  pub warnings : List String
  pub diagnostic : Option Json
  pub restart_requested : Option Bool
  pub requested_state : Option Json
  pub verification : Option ActionVerification
  pub resource_yaml : Option Json

-- The clock's reading comes first.
unfoldable pub simple : ℕ → String → String → Option String → CommandResult
simple now_ms command_id status message = record {
  command_id = command_id;
  status = status;
  message = message;
  finished_at_ms = now_ms;
  dry_run = none;
  applied_patch = none;
  observed_before = none;
  observed_after = none;
  warnings = [];
  diagnostic = none;
  restart_requested = none;
  requested_state = none;
  verification = none;
  resource_yaml = none;
}

-- A command as the Hub sends it.
pub record Command : Type 0 where
  pub id : String
  pub kind : String
  pub spec : Json
