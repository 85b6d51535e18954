-- ===== src/Lifecycle/Watch/Observed.antt =====
-- operator_lifecycle.rs: what the watch has seen, apart from how it keeps it.
use hub_kubernetes_agent.Prelude.{
  ◌≡◌, refl, Option, none, some, List, [], ◌∷◌, Bool, false, if◌then◌else◌,
}
use hub_kubernetes_agent.Lifecycle.Watch.{
  ConfigMap, is_operator_enabled, action_operator_excluded_namespaces, Signal, initial,
  initial_failed, added, modified, deleted, bookmark, interrupted, ticked, Reconcile, next_state,
  acts, wanted, on_signal, after, start, configured,
}

-- What is known of the ConfigMap.
pub data Known : Type 0 where
  unknown absent : Known
  present : ConfigMap → Known

-- What the newest signal that tells of the ConfigMap says; the signals are the newest first.
abbrev pub newest : List Signal → Known
newest [] = unknown
newest (initial cm ∷ before) = present cm
newest (initial_failed ∷ before) = newest before
newest (added cm ∷ before) = present cm
newest (modified cm ∷ before) = present cm
newest (deleted ∷ before) = absent
newest (bookmark version ∷ before) = newest before
newest (interrupted ∷ before) = newest before
newest (ticked ∷ before) = newest before

-- What is to be done: nothing as long as nothing is known, and the removal of the operator, with no
-- namespace excluded, where there is no ConfigMap.
abbrev pub called_for : Known → Option Reconcile
called_for unknown = none
called_for absent = some (record { enabled = false; excluded = [] })
called_for (present cm) =
    some (record {
      enabled = is_operator_enabled cm;
      excluded = action_operator_excluded_namespaces cm;
    })

wanted-after : (signals : List Signal) → wanted (after signals) ≡ called_for (newest signals)
unfolding after wanted next_state start configured
wanted-after [] = refl
wanted-after (initial cm ∷ before) = refl
wanted-after (initial_failed ∷ before) = wanted-after before
wanted-after (added cm ∷ before) = refl
wanted-after (modified cm ∷ before) = refl
wanted-after (deleted ∷ before) = refl
wanted-after (bookmark version ∷ before) = wanted-after before
wanted-after (interrupted ∷ before) = wanted-after before
wanted-after (ticked ∷ before) = wanted-after before

-- The watch implements its abstract view, in which only the newest signal that tells of the
-- ConfigMap counts: after any signals, the next one makes the leader reconcile exactly what that view
-- calls for, with the next signal included, if it is a change of the ConfigMap or a tick, and nothing
-- otherwise; and who is not the leader reconciles nothing.
pub on_signal-called_for :
    (is_leader : Bool) (signal : Signal) (before : List Signal)
    → (on_signal is_leader signal (after before)).0 ≡ (
        if acts signal
        then (if is_leader then called_for (newest (signal ∷ before)) else none)
        else none)
unfolding on_signal after
on_signal-called_for is_leader signal before = rw (wanted-after (signal ∷ before)) refl
