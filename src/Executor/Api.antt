-- ===== src/Executor/Api.antt =====
-- executor.rs: the executor's view of the outside. What it asks of the Kubernetes API server, and
-- its waits, are events; the answers and the clock may depend on all that has been asked so far, so
-- a cluster that changes by itself, or answers differently each time, is one of these too.
use hub_kubernetes_agent.Prelude.{
  ℕ, String, Option, none, some, List, ◌∷◌, Bool, true, false, not, ℤ, Result, ok, err,
}
use hub_kubernetes_agent.Exec.{Exec}
use hub_kubernetes_agent.Model.Objects.{
  Node, Pod, Labels, Container, Autoscaler, VerticalAutoscaler, DisruptionBudget, DynamicObject,
  KubeError,
}
use hub_kubernetes_agent.Model.Policy.{ActionPolicy}
use hub_kubernetes_agent.Model.Json.{Json}
use hub_kubernetes_agent.Model.Result.{CommandResult}
use hub_kubernetes_agent.Model.Command.{PostgresqlDiagnosticSpec}

-- The fields that are read of a workload of the three kinds; none too where a parent is missing.
pub record Workload : Type 0 where
  pub generation : Option ℤ
  pub restarted_at : Option String
  pub spec_replicas : Option ℤ
  pub replicas : Option ℤ
  pub updated_replicas : Option ℤ
  pub ready_replicas : Option ℤ
  pub available_replicas : Option ℤ
  pub current_replicas : Option ℤ
  pub observed_generation : Option ℤ
  pub desired_number_scheduled : ℤ
  pub current_number_scheduled : ℤ
  pub number_ready : ℤ
  pub updated_number_scheduled : Option ℤ
  pub number_available : Option ℤ
  -- the containers of the pod template; none where there is no template spec
  pub containers : Option (List Container)
  pub pod_labels : Option Labels

-- The `scale` subresource: the desired count, none where it has no spec or the spec has none; the
-- current count, none where it has no status.
pub record Scale : Type 0 where
  pub desired : Option ℤ
  pub current : Option ℤ

pub data Event : Type 0 where
  list_policies : Event
  get_workload : String → String → String → Event
  get_scale : String → String → Event
  -- kind, namespace, name, patch, whether it is a dry run
  patch_workload : String → String → String → Json → Bool → Event
  patch_scale : String → String → Json → Bool → Event
  get_node : String → Event
  list_pods : String → Event
  patch_node : String → Json → Event
  -- namespace, name, grace period in seconds
  evict : String → String → Option ℕ → Event
  -- milliseconds
  sleep : ℕ → Event
  -- resource, namespace
  list_objects : String → String → Event
  -- group, version, kind, namespace, name
  get_object : String → String → String → String → String → Event
  -- the diagnosis of the PostgreSQL plugin in a namespace, which only reads
  diagnose : String → Event

-- The newest event first.
abbrev pub History : Type 0
History = List Event

-- The event changes the cluster, where the server carries it out.
abbrev pub is_mutating : Event → Bool
is_mutating (patch_workload kind namespace name patch dry_run) = not dry_run
is_mutating (patch_scale namespace name patch dry_run) = not dry_run
is_mutating (patch_node name patch) = true
is_mutating (evict namespace name grace) = true
is_mutating _ = false

-- The outside: the API server's answers, with the text of an error, and the clocks.
pub record Cluster : Type 0 where
  pub now_ms : History → ℕ
  -- the monotonic clock of deadlines, in milliseconds
  pub instant_ms : History → ℕ
  pub now_rfc3339 : History → String
  pub policies : History → Result String (List ActionPolicy)
  pub workload : String → String → String → History → Result String Workload
  pub scale : String → String → History → Result String Scale
  pub workload_patched : String → String → String → Json → Bool → History → Result String Workload
  pub scale_patched : String → String → Json → Bool → History → Result String Scale
  pub node : String → History → Result String Node
  pub pods : String → History → Result String (List Pod)
  pub node_patched : String → Json → History → Result String (Unit {0})
  pub evicted : String → String → Option ℕ → History → Result String (Unit {0})
  pub autoscalers : String → History → Result String (List Autoscaler)
  pub vertical_autoscalers : String → History → Result String (List VerticalAutoscaler)
  -- how many there are
  pub limit_ranges : String → History → Result String ℕ
  pub resource_quotas : String → History → Result String ℕ
  pub disruption_budgets : String → History → Result String (List DisruptionBudget)
  pub object : String → String → String → String → String → History → Result KubeError DynamicObject
  pub diagnosis : PostgresqlDiagnosticSpec → History → Json

-- One request: the answer, and the event.
unfoldable pub request : {E A : Type 0} → Event → (History → Result E A) → Exec History E A
request event answer h = (answer h, event ∷ h)

-- A wait.
unfoldable pub tick : {E : Type 0} → Event → Exec History E (Unit {0})
tick event h = (ok tt, event ∷ h)

-- A reading of a clock: no event.
unfoldable pub read : {E A : Type 0} → (History → A) → Exec History E A
read f h = (ok (f h), h)

-- How a handler ends before its last line: by an early return, or, in the model alone, because the
-- rounds given to one of its loops ran out.
pub data Early : Type 0 where
  returned : CommandResult → Early
  out_of_fuel : Early

abbrev pub Handler : Type 0
Handler = Exec History Early CommandResult

-- The result of a handler; none where the fuel ran out.
unfoldable pub finish : Result Early CommandResult × History → Option CommandResult × History
finish (ok result, h) = (some result, h)
finish (err (returned result), h) = (some result, h)
finish (err out_of_fuel, h) = (none, h)
