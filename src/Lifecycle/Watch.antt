-- ===== src/Lifecycle/Watch.antt =====
-- operator_lifecycle.rs: the watch of the ConfigMap, as a machine that takes one signal at a time.
pub mod Observed
use hub_kubernetes_agent.Prelude.{
  String, Option, none, some, List, [], ◌∷◌, map, filter, Bool, true, false, not, ◌||◌, ◌==◌,
  if◌then◌else◌, and_then, lookup, trim, unwrap_or, map_or,
}
use hub_kubernetes_agent.Prelude.Commas.{split_commas}
use hub_kubernetes_agent.Operator.Namespaces.{combined_excluded_namespaces}

-- The ConfigMap, with what is read of it.
pub record ConfigMap : Type 0 where
  pub resource_version : Option String
  pub data_entries : Option (List (String × String))

unfoldable pub is_operator_enabled : ConfigMap → Bool
unfolding trim
is_operator_enabled cm =
    map_or (and_then cm.data_entries (λ entries. lookup "ACTION_OPERATOR_ENABLED" entries)) false
      (λ v. (trim v == "true") || (trim v == "1"))

unfoldable pub action_operator_excluded_namespaces : ConfigMap → List String
unfolding trim split_commas combined_excluded_namespaces
action_operator_excluded_namespaces cm = combined_excluded_namespaces (
    map_or
      (and_then cm.data_entries (λ entries. lookup "ACTION_OPERATOR_EXCLUDED_NAMESPACES" entries))
      [] (λ value. filter (λ s. not (s == "")) (map trim (split_commas value))))

-- What wakes the loop up.
pub data Signal : Type 0 where
  -- the read at the start
  initial : ConfigMap → Signal
  initial_failed : Signal
  added modified : ConfigMap → Signal
  deleted : Signal
  bookmark : String → Signal
  -- an error event, an error of the stream, its end, or a watch that does not start
  interrupted : Signal
  ticked : Signal

pub record WatchState : Type 0 where
  pub last_enabled : Option Bool
  pub last_excluded : List String
  pub resource_version : String

unfoldable pub start : WatchState
start = record { last_enabled = none; last_excluded = []; resource_version = "0" }

-- What is passed to `reconcile_operator_workload`.
pub record Reconcile : Type 0 where
  pub enabled : Bool
  pub excluded : List String

-- `last_enabled` and `last_excluded` after a signal that tells of a ConfigMap.
unfoldable pub configured : ConfigMap → WatchState → WatchState
configured cm state = record state {
  last_enabled = some (is_operator_enabled cm);
  last_excluded = action_operator_excluded_namespaces cm;
}

unfoldable pub next_state : Signal → WatchState → WatchState
unfolding configured
next_state (initial cm) state = configured cm state
next_state initial_failed state = state
next_state (added cm) state = record (configured cm state) {
  resource_version = unwrap_or cm.resource_version state.resource_version;
}
next_state (modified cm) state = record (configured cm state) {
  resource_version = unwrap_or cm.resource_version state.resource_version;
}
next_state deleted state = record state { last_enabled = some false; last_excluded = [] }
next_state (bookmark version) state = record state { resource_version = version }
next_state interrupted state = state
next_state ticked state = state

-- The signal leads to a reconciliation, where the state knows what to do.
unfoldable pub acts : Signal → Bool
acts (initial cm) = true
acts initial_failed = false
acts (added cm) = true
acts (modified cm) = true
acts deleted = true
acts (bookmark version) = false
acts interrupted = false
acts ticked = true

unfoldable pub wanted : WatchState → Option Reconcile
wanted state = elim state.last_enabled [
  | none ↦ none
  | some enabled ↦ some (record { enabled = enabled; excluded = state.last_excluded })
]

-- One signal: what the leader, if it is that, reconciles, and the state.
unfoldable pub on_signal : Bool → Signal → WatchState → Option Reconcile × WatchState
unfolding next_state acts wanted
on_signal is_leader signal state =
    let state' = next_state signal state in
    (if acts signal then (if is_leader then wanted state' else none) else none, state')

-- The state after signals, the newest first.
unfoldable pub after : List Signal → WatchState
unfolding start next_state
after [] = start
after (signal ∷ before) = next_state signal (after before)
