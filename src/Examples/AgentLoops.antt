-- ===== src/Examples/AgentLoops.antt =====
-- The agent's loops at small inputs.
use hub_kubernetes_agent.Prelude.{
  ℕ, ◌+◌, ◌≡◌, refl, true, String, none, some, List, [], ◌∷◌, length, Result, ok, err, arith,
}
use hub_kubernetes_agent.Model.Result.{Command, CommandResult, simple}
use hub_kubernetes_agent.Agent.Warnings.{
  SuppressionState, Suppressions, Call, warn_all, MetricsStatus, warn_metrics_status_change,
}
use hub_kubernetes_agent.Agent.Warnings.Counted.{all_counted, pending, warn_all-counted}
use hub_kubernetes_agent.Agent.Warnings.Silent.{lines_of, warn_all-silent}
use hub_kubernetes_agent.Agent.Mode.{
  agent, operator, separate, joined, parse_runtime_mode, parse_runtime_mode-all_written,
}
use hub_kubernetes_agent.Agent.Commands.{BatchEnd, answered_ids, run_batch, run_batch-BatchEnd}
use hub_kubernetes_agent.Examples.Data.{cmd}

abbrev call_at : String → ℕ → Call
call_at key now = record { window = 60_000; key = key; message = "poll failed"; now = now }

abbrev calls : List Call
calls = call_at "poll" 100_000 ∷ call_at "collect" 110_000 ∷ call_at "poll" 159_999 ∷ []

warn_all-counted_example :
    let (lines, map') = warn_all calls [] in all_counted lines + pending map' ≡ length calls + 0
warn_all-counted_example = warn_all-counted calls []

abbrev logged : SuppressionState
logged = record { last_emitted_at = 100_000; suppressed_count = 2 }

abbrev map_of : String → Suppressions
map_of key = (key, logged) ∷ []

warn_all-silent_example : lines_of "poll" (warn_all calls (map_of "poll")).0 ≡ []
warn_all-silent_example =
    warn_all-silent "poll" calls (map_of "poll") logged refl
      ((λ same. omega arith), ((λ same. omega arith), ((λ same. omega arith), tt)))

abbrev forbidden : MetricsStatus
forbidden = record {
  state = "forbidden";
  reason = some "403";
  source = "metrics.k8s.io";
  pod_metrics_count = 0;
}

-- A change from another unavailable state, which is held back all the same.
forbidden_is_held_back :
    (warn_metrics_status_change (λ n. "0") forbidden 399_999 (map_of "metrics_status")).0 ≡ []
unfolding warn_metrics_status_change
forbidden_is_held_back = refl

parse_runtime_mode-all_written_example :
    parse_runtime_mode ("--mode=operator" ∷ "--mode" ∷ "agent" ∷ []) ≡ ok agent
parse_runtime_mode-all_written_example =
    parse_runtime_mode-all_written (joined operator ∷ separate agent ∷ [])

-- The second of three commands asks for a restart.
abbrev run_restarting : Command → ℕ → CommandResult × ℕ
run_restarting c n = (record (simple n c.id "ok" none) { restart_requested = some true }, n + 1)

abbrev commands : List Command
commands = cmd ∷ record cmd { id = "cmd-2" } ∷ []

abbrev acked : CommandResult → ℕ → Result String (Unit {0}) × ℕ
acked result n = (err "timeout", n)

run_batch-BatchEnd_example :
    let ran = run_batch run_restarting acked commands 0 in
    BatchEnd run_restarting acked commands 0 (answered_ids ran.events) ran
unfolding simple
run_batch-BatchEnd_example = run_batch-BatchEnd run_restarting acked commands 0 (λ c t. refl)
