-- ===== src/Agent/Warnings.antt =====
-- main.rs: warnings that repeat are suppressed. `WARN_SUPPRESSION` is a map behind one lock; times
-- are readings of a clock that does not go back, in milliseconds.
pub mod Counted
pub mod Silent
use hub_kubernetes_agent.Prelude.{
  ℕ, ◌+◌, ◌-◌, String, Option, none, some, List, [], ◌∷◌, ◌++◌, Bool, ◌==◌, ltb, leb, if◌then◌else◌,
  ◌<>◌, lookup,
}

pub record SuppressionState : Type 0 where
  pub last_emitted_at : ℕ
  pub suppressed_count : ℕ

abbrev pub Suppressions : Type 0
Suppressions = List (String × SuppressionState)

-- What is logged: a warning, or how many were suppressed before it.
pub data Line : Type 0 where
  warned : String → Line
  suppressed : ℕ → Line

-- `WARN_SUPPRESSION_WINDOW` and `METRICS_WARN_SUPPRESSION_WINDOW`
abbrev pub warn_suppression_window : ℕ
warn_suppression_window = 60_000

abbrev pub metrics_warn_suppression_window : ℕ
metrics_warn_suppression_window = 300_000

-- The entry of a key that the map has gets another state.
unfoldable pub set_state : String → SuppressionState → Suppressions → Suppressions
set_state key state [] = []
set_state key state ((k, old) ∷ rest) =
    let later = set_state key state rest in if k == key then (k, state) ∷ rest else (k, old) ∷ later

-- The arm of a key that the map has. The count is a u64 that grows by one.
unfoldable pub repeated :
    ℕ → String → String → ℕ → SuppressionState → Suppressions → List Line × Suppressions
repeated window key message now state map =
    if leb window (now - state.last_emitted_at)
    then (
      (if ltb 0 state.suppressed_count then suppressed state.suppressed_count ∷ [] else [])
          ++ (warned message ∷ []),
      set_state key (record { last_emitted_at = now; suppressed_count = 0 }) map,
    )
    else ([], set_state key (record state { suppressed_count = state.suppressed_count + 1 }) map)

-- What the three functions below share.
unfoldable pub warn_within : ℕ → String → String → ℕ → Suppressions → List Line × Suppressions
unfolding repeated
warn_within window key message now map = elim (lookup key map) [
  | none ↦
      (warned message ∷ [], (key, record { last_emitted_at = now; suppressed_count = 0 }) ∷ map)
  | some state ↦ repeated window key message now state map
]

unfoldable pub warn_with_suppression : String → String → ℕ → Suppressions → List Line × Suppressions
unfolding warn_within
warn_with_suppression key message now map = warn_within warn_suppression_window key message now map

pub record MetricsStatus : Type 0 where
  pub state : String
  pub reason : Option String
  pub source : String
  pub pod_metrics_count : ℕ

pub record SnapshotApiStatus : Type 0 where
  pub state : String
  pub reason : Option String
  pub source : String
  pub volumesnapshotclasses_count : ℕ
  pub volumesnapshots_count : ℕ

abbrev reason_text : Option String → String
reason_text none = ""
reason_text (some reason) = " reason=" <> reason

-- The decimal digits of a count.
module _ (show : ℕ → String) where
  abbrev metrics_message : MetricsStatus → String
  metrics_message status =
      "pod-metrics unavailable: state="
      <> status.state
      <> reason_text status.reason
      <> " source="
      <> status.source
      <> " pod_metrics_count="
      <> show status.pod_metrics_count

  unfoldable pub warn_metrics_status_change :
      MetricsStatus → ℕ → Suppressions → List Line × Suppressions
  unfolding warn_within
  warn_metrics_status_change status now map =
      if status.state == "ok"
      then ([], map)
      else warn_within metrics_warn_suppression_window "metrics_status" (metrics_message status) now
          map

  abbrev snapshot_message : SnapshotApiStatus → String
  snapshot_message status =
      "snapshot API unavailable: state="
      <> status.state
      <> reason_text status.reason
      <> " source="
      <> status.source
      <> " classes="
      <> show status.volumesnapshotclasses_count
      <> " snapshots="
      <> show status.volumesnapshots_count

  unfoldable pub warn_snapshot_api_status_change :
      SnapshotApiStatus → ℕ → Suppressions → List Line × Suppressions
  unfolding warn_within
  warn_snapshot_api_status_change status now map =
      if status.state == "ok"
      then ([], map)
      else warn_within metrics_warn_suppression_window "snapshot_api_status"
          (snapshot_message status) now map

-- A call of `warn_with_suppression`, or one of the others at a state that is not ok.
pub record Call : Type 0 where
  pub window : ℕ
  pub key : String
  pub message : String
  pub now : ℕ

abbrev pub keyed : String → List Line → List (String × Line)
keyed key [] = []
keyed key (line ∷ lines) = (key, line) ∷ keyed key lines

-- The calls in the order in which they take the lock: what each logs, with its key.
unfoldable pub warn_all : List Call → Suppressions → List (String × Line) × Suppressions
unfolding warn_within
warn_all [] map = ([], map)
warn_all (call ∷ rest) map =
    let once = warn_within call.window call.key call.message call.now map in
    let later = warn_all rest once.1 in (keyed call.key once.0 ++ later.0, later.1)
