-- ===== src/Examples/Data.antt =====
-- The cluster of the examples: two policies, three namespaces, a node with four pods.
use hub_kubernetes_agent.Prelude.{
  err, ℕ, ◌+◌, String, Option, none, some, List, [], ◌∷◌, true, false, pos, Result, ok,
}
use hub_kubernetes_agent.Model.Objects.{
  api_error, ObjectMeta, OwnerReference, Namespace, Pod, Labels,
}
use hub_kubernetes_agent.Model.Policy.{ActionPolicy, PolicyStatus}
use hub_kubernetes_agent.Model.Command.{
  ExecutionSpec, WorkloadTargetRef, ScaleSpec, RolloutRestartSpec, DrainNodeSpec, execute,
}
use hub_kubernetes_agent.Model.Result.{Command, CommandResult, simple}
use hub_kubernetes_agent.Model.Json.{null}
use hub_kubernetes_agent.Operator.Status.{BindingReconcileOutcome}
use hub_kubernetes_agent.Operator.Status.Ready.{with_status}
use hub_kubernetes_agent.Executor.Policy.{EffectivePolicy}
use hub_kubernetes_agent.Executor.Api.{Cluster, History, Workload, sleep}
use hub_kubernetes_agent.Executor.Gate.{Config}
use hub_kubernetes_agent.Admission.{Round, written_status}

abbrev pub meta : String → Option Labels → ObjectMeta
meta name labels = record {
  name = some name;
  namespace = some "apps";
  generation = some (pos 1);
  labels = labels;
  annotations = none;
  owner_references = none;
}

abbrev pub namespaces : List Namespace
namespaces =
    record { metadata = meta "kube-system" (some (("sentinella.io/action-mode", "true") ∷ [])) }
    ∷ record { metadata = meta "plain" none }
    ∷ record { metadata = meta "apps" (some (("sentinella.io/action-mode", "true") ∷ [])) }
    ∷ []

abbrev pub excluded : List String
excluded = "kube-system" ∷ "openshift-*" ∷ []

abbrev pub no_status : ActionPolicy
no_status = record {
  metadata = meta "no-status" none;
  spec = record {
    namespace_selector = none;
    allowed_actions = "scale" ∷ [];
    allowed_resources = "Deployment" ∷ [];
    approval_required = false;
    limits = none;
  };
  status = none;
}

abbrev pub plain_policy : ActionPolicy
plain_policy = record no_status {
  metadata = meta "global" none;
  spec = record {
    namespace_selector = none;
    allowed_actions = "scale" ∷ "rollout_restart" ∷ "drain_node" ∷ "apply_workload_resources" ∷ [];
    allowed_resources = "Deployment" ∷ [];
    approval_required = false;
    limits = none;
  };
}

abbrev pub granted : BindingReconcileOutcome
granted = record { permission_granted = true; reconciliation_error = none }

-- The first round writes the first status; the second reads it.
abbrev pub first_status : PolicyStatus
first_status = written_status 90_000 (record {
  policy = plain_policy;
  namespaces = namespaces;
  excluded = excluded;
  outcome = granted;
  at = 10_000;
})

abbrev pub round : Round
round = record {
  policy = with_status plain_policy first_status;
  namespaces = namespaces;
  excluded = excluded;
  outcome = granted;
  at = 40_000;
}

abbrev pub served_policy : ActionPolicy
served_policy = with_status plain_policy (written_status 90_000 round)

abbrev pub policies : List ActionPolicy
policies = no_status ∷ served_policy ∷ []

abbrev pub effective_policy : EffectivePolicy
effective_policy = record {
  name = "global";
  policy = served_policy;
  status = written_status 90_000 round;
}

abbrev pub pod : String → List OwnerReference → Pod
pod name owners = record {
  metadata = record (meta name none) { owner_references = some owners };
  node_name = some "node-1";
}

abbrev pub pods : List Pod
pods =
    pod "proxy" (record { kind = "DaemonSet" } ∷ [])
    ∷ pod "web" (record { kind = "ReplicaSet" } ∷ [])
    ∷ record (pod "elsewhere" (record { kind = "ReplicaSet" } ∷ [])) { node_name = some "node-2" }
    ∷ pod "stray" []
    ∷ []

-- The pods are gone after the first wait; an unmanaged one is not on this node.
abbrev pub pods_at : String → History → Result String (List Pod)
pods_at name (sleep n ∷ h) = ok []
pods_at name h = ok (
    pod "proxy" (record { kind = "DaemonSet" } ∷ [])
    ∷ pod "web" (record { kind = "ReplicaSet" } ∷ [])
    ∷ [])

abbrev pub workload : Workload
workload = record {
  generation = some (pos 4);
  restarted_at = none;
  spec_replicas = some (pos 2);
  replicas = some (pos 2);
  updated_replicas = some (pos 2);
  ready_replicas = some (pos 2);
  available_replicas = some (pos 2);
  current_replicas = some (pos 2);
  observed_generation = some (pos 4);
  desired_number_scheduled = pos 0;
  current_number_scheduled = pos 0;
  number_ready = pos 0;
  updated_number_scheduled = none;
  number_available = none;
  containers = some (record { name = "app"; image = some "web:1"; resources = none } ∷ []);
  pod_labels = some (("app", "web") ∷ []);
}

-- The clock of a wait: time passes in the waits alone.
abbrev pub slept : History → ℕ
slept [] = 0
slept (sleep n ∷ h) = n + slept h
slept (event ∷ h) = slept h

abbrev pub cluster : Cluster
cluster = record {
  now_ms = λ h. 50_000;
  instant_ms = slept;
  now_rfc3339 = λ h. "2026-01-01T00:00:00Z";
  policies = λ h. ok policies;
  workload = λ kind namespace name h. ok workload;
  scale = λ namespace name h. ok (record { desired = some (pos 2); current = some (pos 2) });
  workload_patched = λ kind namespace name patch dry_run h. ok workload;
  scale_patched = λ namespace name patch dry_run h.
      ok (record { desired = some (pos 3); current = some (pos 2) });
  node = λ name h. ok (record { unschedulable = some false });
  pods = pods_at;
  node_patched = λ name patch h. ok tt;
  evicted = λ namespace name grace h. ok tt;
  autoscalers = λ namespace h. ok [];
  vertical_autoscalers = λ namespace h. ok [];
  limit_ranges = λ namespace h. ok 1;
  resource_quotas = λ namespace h. err "forbidden";
  disruption_budgets = λ namespace h. ok [];
  object = λ group version kind namespace name h. err (api_error 404 "NotFound");
  diagnosis = λ spec h. null;
}

abbrev pub cfg : Config
cfg = record {
  action_operator_poll_interval_secs = 30;
  actions_enabled = true;
  readonly_commands_enabled = true;
  cluster_id = "cluster-1";
}

abbrev pub live : ExecutionSpec
live = record { mode = execute; approval_id = none; preview_resource_version = none }

abbrev pub target : WorkloadTargetRef
target = record { kind = "Deployment"; namespace = "apps"; name = "web" }

abbrev pub scale_spec : ScaleSpec
scale_spec = record { execution = live; target = target; replicas = pos 3 }

abbrev pub restart_spec : RolloutRestartSpec
restart_spec = record { execution = live; target = target }

abbrev pub drain_spec : DrainNodeSpec
drain_spec = record {
  node_name = " node-1 ";
  timeout_seconds = some 20;
  grace_period_seconds = some 30;
  force = false;
}

abbrev pub cmd : Command
cmd = record { id = "cmd-1"; kind = "scale"; spec = null }

abbrev pub result : CommandResult
result = simple 1_000 "cmd-1" "ok" none

abbrev pub other_result : CommandResult
other_result = simple 2_000 "cmd-2" "ok" none

-- What runs a command in the examples: it counts.
abbrev pub run_counting : Command → ℕ → CommandResult × ℕ
run_counting c n = (simple n c.id "ok" none, n + 1)

-- The same cluster with a wall clock that moves, whose workload is never ready.
abbrev pub ticking : Cluster
ticking = record cluster {
  now_ms = slept;
  workload = λ kind namespace name h. ok (record workload { updated_replicas = some (pos 1) });
}
