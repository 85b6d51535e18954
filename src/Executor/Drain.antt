-- ===== src/Executor/Drain.antt =====
-- executor.rs: `drain_node`. The wait for the pods to go runs on fuel, one unit for a round.
pub mod Plan
pub mod Live
pub mod Evictions
pub mod Justified
pub mod Wait
pub mod Finishes
use text.Mathlib.Text.{◌==◌}
use hub_kubernetes_agent.Prelude.{
  ℕ, zero, suc, ◌+◌, ◌*◌, String, Option, none, some, List, [], ◌∷◌, ◌++◌, map, Bool, true, false,
  not, ◌&&◌, leb, ℤ, pos, if◌then◌else◌, ◌<>◌, is_empty, join, length, unwrap_or, trim,
}
use hub_kubernetes_agent.Exec.{Exec, pure, fail, lift, ◌>>=◌, ◌>>◌, or_else}
use hub_kubernetes_agent.Model.Objects.{Node, Pod}
use hub_kubernetes_agent.Model.Command.{DrainNodeSpec}
use hub_kubernetes_agent.Model.Json.{Json, bool, string, number, texts, obj}
use hub_kubernetes_agent.Model.Result.{CommandResult, simple}
use hub_kubernetes_agent.Executor.Api.{
  Cluster, History, request, read, tick, Early, returned, out_of_fuel, Handler, get_node, list_pods,
  patch_node, evict, sleep,
}
use hub_kubernetes_agent.Executor.Gate.{Config, ensure_cluster_action_allowed, return_simple_error}
use Plan.{Classified, classify_pods_on_node, drain_timeout_duration, drain_delete_options}

abbrev pub pod_texts : List (String × String) → List String
pod_texts pods = map (λ pod. pod.0 <> "/" <> pod.1) pods

pub forced : List String → List String
forced pods = map (λ pod. "forced unmanaged pod " <> pod) pods

pub cordon_patch : Json
cordon_patch = obj (("spec", obj (("unschedulable", bool true) ∷ [])) ∷ [])

-- What the wait leaves behind: the warnings, and the pods that the last round but one still saw.
pub record Drained : Type 0 where
  pub warnings : List String
  pub remaining : List String

module _ (cluster : Cluster) (cfg : Config) (command_id : String) (spec : DrainNodeSpec)
    (node_name : String) where
  -- One request of the loop below: an error ends the command.
  unfoldable pub evict_one : Option ℕ → String → String → Exec History Early (Unit {0})
  unfolding request return_simple_error or_else
  evict_one grace namespace name =
      or_else (request (evict namespace name grace) (cluster.evicted namespace name grace)) (λ e.
        return_simple_error cluster cfg command_id (
          "failed to evict Pod " <> namespace <> "/" <> name <> " while draining Node " <> node_name
          <> ": " <> e))

  -- The loop over the pods that are to go; the evictions before an error stay done.
  unfoldable pub evict_all : Option ℕ → List (String × String) → Exec History Early (Unit {0})
  unfolding evict_one pure ◌>>=◌
  evict_all grace [] = pure tt
  evict_all grace ((namespace, name) ∷ rest) = do
    evicted ← evict_one grace namespace name
    evict_all grace rest

  unfoldable pub cordon : Exec History Early (Unit {0})
  unfolding request return_simple_error or_else cordon_patch
  cordon =
      or_else
        (request (patch_node node_name cordon_patch) (cluster.node_patched node_name cordon_patch))
        (λ e.
          return_simple_error cluster cfg command_id
            ("failed to cordon Node " <> node_name <> ": " <> e))

  unfoldable pub list_node_pods : String → Exec History Early (List Pod)
  unfolding request return_simple_error or_else
  list_node_pods failure =
      or_else (request (list_pods node_name) (cluster.pods node_name))
        (λ e. return_simple_error cluster cfg command_id (failure <> node_name <> ": " <> e))

  -- The end of a round: the deadline, or the wait and the next round.
  unfoldable pub unless_late :
      ℕ → List String → Exec History Early Drained → Exec History Early Drained
  unfolding return_simple_error read tick ◌>>=◌ ◌>>◌
  unless_late deadline remaining again = do
    now ← read cluster.instant_ms
    if leb deadline now
        then return_simple_error cluster cfg command_id (
            "timed out waiting for Node "
            <> node_name
            <> " to drain; remaining Pods: "
            <> join ", " remaining)
        else do tick (sleep 5_000); again

  unfoldable pub wait_drained : ℕ → ℕ → Drained → Exec History Early Drained
  unfolding list_node_pods return_simple_error forced unless_late pure fail ◌>>=◌
  wait_drained zero deadline before = fail out_of_fuel
  wait_drained (suc fuel) deadline before = do
    pods ← list_node_pods "failed to poll Pods while draining Node "
    let still = classify_pods_on_node node_name pods spec.force
    let warnings = before.warnings ++ forced still.unmanaged
    let remaining = pod_texts still.drainable
    let again = wait_drained fuel deadline (record { warnings = warnings; remaining = remaining })
    if not (is_empty still.unmanaged) && not spec.force
        then return_simple_error cluster cfg command_id (
            "Node "
            <> node_name
            <> " gained unmanaged Pods during drain: "
            <> join ", " still.unmanaged)
        else do
          if is_empty still.drainable
              then pure (record { warnings = warnings; remaining = before.remaining })
              else unless_late deadline remaining again

  pub drain_result : ℕ → Bool → List (String × String) → Drained → CommandResult
  drain_result now_ms unschedulable evicted drained = record (simple now_ms command_id "ok" none) {
    dry_run = some false;
    requested_state = some (obj (("nodeName", string node_name) ∷ []));
    observed_before = some (
        obj (
          ("unschedulable", bool unschedulable)
          ∷ ("drainablePods", number (pos (length evicted)))
          ∷ []));
    observed_after = some (
        obj (
          ("unschedulable", bool true)
          ∷ ("evictedPods", texts (pod_texts evicted))
          ∷ ("remainingPods", texts drained.remaining)
          ∷ ("warnings", texts drained.warnings)
          ∷ []));
    warnings = drained.warnings;
    verification = some (record {
      status = "accepted";
      message = some "node cordoned and pod eviction completed";
      observed_state =
          some
            (obj (("unschedulable", bool true) ∷ ("evictedPods", texts (pod_texts evicted)) ∷ []));
    });
  }

  -- From the cordon on.
  unfoldable pub drain_pods : ℕ → ℕ → Option ℕ → Bool → Classified → Handler
  unfolding drain_result forced
  drain_pods fuel timeout grace unschedulable planned = do
    cordoned ← cordon
    evicted ← evict_all grace planned.drainable
    start ← read cluster.instant_ms
    let warnings = planned.ignored ++ (if spec.force then forced planned.unmanaged else [])
    drained ←
        wait_drained fuel (start + timeout * 1000) (record { warnings = warnings; remaining = [] })
    now ← read cluster.now_ms
    pure (drain_result now unschedulable planned.drainable drained)

  -- The part after the pods have been listed.
  unfoldable pub drain_listed : ℕ → ℕ → Option ℕ → Node → List Pod → Handler
  unfolding return_simple_error drain_pods
  drain_listed fuel timeout grace node pods =
      let planned = classify_pods_on_node node_name pods spec.force in
      if not spec.force && not (is_empty planned.unmanaged)
      then return_simple_error cluster cfg command_id (
          "refusing to drain Node "
          <> node_name
          <> " because unmanaged Pods require an explicit force path: "
          <> join ", " planned.unmanaged)
      else drain_pods fuel timeout grace (unwrap_or node.unschedulable false) planned

  -- The part after the name has been looked at.
  unfoldable pub drain_named : ℕ → Handler
  unfolding ensure_cluster_action_allowed return_simple_error list_node_pods drain_listed request
      lift read or_else ◌>>=◌
  drain_named fuel = do
    policy ←
        or_else (ensure_cluster_action_allowed cluster cfg "drain_node")
          (return_simple_error cluster cfg command_id)
    timeout ←
        or_else (lift (drain_timeout_duration spec)) (return_simple_error cluster cfg command_id)
    grace ← or_else (lift (drain_delete_options spec)) (return_simple_error cluster cfg command_id)
    node ← or_else (request (get_node node_name) (cluster.node node_name)) (λ e.
        return_simple_error cluster cfg command_id
          ("failed to get Node " <> node_name <> ": " <> e))
    pods ← list_node_pods "failed to list Pods for drain "
    drain_listed fuel timeout grace node pods

module _ (cluster : Cluster) (cfg : Config) (command_id : String) (fuel : ℕ) where
  unfoldable pub drain_node : DrainNodeSpec → Handler
  unfolding drain_named return_simple_error
  drain_node spec =
      if trim spec.node_name == ""
      then return_simple_error cluster cfg command_id "node_name is required"
      else drain_named cluster cfg command_id spec (trim spec.node_name) fuel
