-- ===== src/Lib.antt =====
-- Verification of the Sentinella Hub Kubernetes agent (src/*.rs of the repository).
--
-- The agent runs in two roles. The operator (src/operator.rs) lists namespaces and action policies,
-- reconciles role bindings, and writes to each policy a status with conditions. The executor
-- (src/executor.rs) takes commands that come from the Hub, drops the ones it has seen, asks the
-- listed policies and their statuses whether a command is admitted, and carries it out against the
-- Kubernetes API server. Both share the data model of src/model.rs. The agent's main loop
-- (src/main.rs) polls the Hub for commands, has the executor run them, and acknowledges the results.
-- Its leader watches a ConfigMap (src/operator_lifecycle.rs), and creates or removes the operator, and
-- labels the namespaces that the operator then serves. Streams of network events fill a buffer
-- (src/tetragon.rs). What runs in a container is told from its image, its process and its labels
-- (src/tech.rs).
--
--   Prelude     numbers, texts, lists, options and results that the rest stands on
--   Exec        functions that change the outside and may fail: a state that comes back beside the
--               error too, rules for invariants, and for what must have passed before a change
--   Model       src/model.rs: commands, policies, statuses, results, quantities, JSON values
--   Operator    src/operator.rs: Namespaces (effective_namespaces and the patterns), Status
--               (build_policy_status and its conditions), Round (reconcile_action_policies_with
--               and reconcile_action_role_bindings_with)
--   Executor    src/executor.rs: Limits and Policy (the admission loops), Dedup (dedup_begin,
--               dedup_finish, execute), Api (the API server and the clocks), Gate (the checks in
--               front of a handler), Scale, Rollout and Drain (scale_workload, rollout_restart,
--               drain_node with all they call), Preflight and Resources (the preview and the
--               application of resources), Image and Update (self_update, update_agent), Yaml
--               (get_resource_yaml, diagnose_postgresql), Dispatch (execute_inner), Answers (what
--               the handlers send back)
--   Lifecycle   src/operator_lifecycle.rs: Watch (run_operator_lifecycle as a machine of signals),
--               Workload (reconcile_operator_workload), Labels (reconcile_action_mode_namespaces),
--               Desired (the objects that it writes), Api (the API server as it sees it)
--   Agent       src/main.rs: Warnings (warn_with_suppression and the two like it), Mode
--               (parse_runtime_mode), Commands (command_loop)
--   Tetragon    src/tetragon.rs: Buffer (prune_locked, snapshot_ndjson and the line that arrives),
--               Endpoints (discover_tetragon_endpoints), Streams (discover_and_reconcile and the map
--               of streams)
--   Hub         src/hub.rs: Routes (the URLs), Snapshot (send_snapshot), Requests (ack_command,
--               poll_commands, get_cluster_status)
--   Tech        src/tech.rs: Texts (the operations on texts), Parts (registry, tag and version), Rules
--               (the table of images), Detect, Stack, Process and Labels (the four ways to detect)
--   Admission   what an admission by the executor says about a round of the operator
--   Examples    a small cluster, and each theorem at it
--
-- The API server and the clocks are a record of functions of the history of requests (Executor.Api),
-- so that an answer may change at any time and for any reason. A handler returns its result and the
-- longer history, on every path. Times are milliseconds in ℕ; replica counts and quantities are
-- integers, with the bounds of i128 checked where the source checks them.
--
-- The two waits, wait_drained and wait_until, run on fuel, one unit for a round; a run that lacks fuel
-- ends in out_of_fuel or exhausted, which no result of the source stands for. A drain may wait an hour
-- at most, by rounds of five seconds: 721 rounds are enough. A restart waits two minutes, by rounds of
-- two seconds, on the wall clock, which may be set back meanwhile: how far is a parameter, and 62 rounds
-- are enough where it is not, with one more for every two seconds by which it is.
--
-- What serde derives (the parsers of the specifications and of the answers of the Hub), the serializer
-- of YAML, the parser of IP addresses, the digits of a number and the lower case of Unicode are
-- parameters. So are the report of the PostgreSQL plugin, which only reads, the HTTP client, and, for
-- the command loop, the client of the Hub. A map is an association list, a set a list of its elements.
--
-- Not modelled: the HTTP and gRPC clients that the program calls, serialization, logging and counters,
-- the collector, the plugins, the reading of the configuration, the lease of the leader, and the
-- spawning of tasks; of the streams of events, the connections and the conversion of an event to a
-- line.
pub mod Prelude
pub mod Exec
pub mod Model
pub mod Operator
pub mod Executor
pub mod Admission
pub mod Agent
pub mod Hub
pub mod Lifecycle
pub mod Tech
pub mod Tetragon
pub mod Examples
