-- ===== src/Executor/Drain/Justified.antt =====
-- executor.rs: every eviction of a drain is of a pod that may be evicted.
use hub_kubernetes_agent.Prelude.{
  ℕ, zero, suc, ◌+◌, ◌*◌, ◌≡◌, ◌==◌, String, Option, List, [], ◌∷◌, Bool, false, not, ◌&&◌, ◌<>◌,
  is_empty, trim, join, unwrap_or, Result, ok, All,
}
use hub_kubernetes_agent.Exec.{Exec, ◌>>=◌}
use hub_kubernetes_agent.Exec.Keeps.{
  Keeps, Keeps-lift, Keeps-if, keeps_rules, Keeps-or_else, Keeps-bind, Keeps-pure, Keeps-bind_eq,
}
use hub_kubernetes_agent.Model.Objects.{Pod, Node}
use hub_kubernetes_agent.Model.Command.{DrainNodeSpec}
use hub_kubernetes_agent.Executor.Api.{
  Early, Cluster, Event, History, request, get_node, evict, tick,
}
use hub_kubernetes_agent.Executor.Gate.{
  Config, list_action_policies, ensure_cluster_action_allowed, return_simple_error,
}
use hub_kubernetes_agent.Executor.Gate.Quiet.{Keeps-read, return_simple_error-Keeps}
use hub_kubernetes_agent.Executor.Drain.Plan.{
  Classified, classify_pods_on_node, drain_timeout_duration, drain_delete_options,
}
use hub_kubernetes_agent.Executor.Drain.{
  Drained, cordon, evict_one, list_node_pods, evict_all, wait_drained, unless_late, drain_pods,
  drain_listed, drain_named, drain_node,
}
use hub_kubernetes_agent.Executor.Drain.Evictions.{
  IsPlanned, classify_pods_on_node-IsPlanned, All-rest,
}
use hub_kubernetes_agent.Executor.Drain.Live.{list_node_pods-listed}

module _ (cluster : Cluster) (node_name : String) (force : Bool) where
  -- The pod was listed for the node at some time, and may be evicted.
  pub record IsListed (namespace name : String) : Type 0 where
    pub at : History
    pub pods : List Pod
    pub listed : cluster.pods node_name at ≡ ok pods
    pub planned : IsPlanned node_name force pods namespace name

  abbrev pub IsJustified : Event → Type 0
  IsJustified (evict namespace name grace) = IsListed namespace name
  IsJustified _ = Unit

  abbrev pub AllJustified : History → Type 0
  AllJustified h = All IsJustified h

module _ (cluster : Cluster) (node_name : String) (force : Bool) where
  justified_request :
      {A : Type 0} (event : Event) (answer : History → Result String A)
      → IsJustified cluster node_name force event
      → Keeps (AllJustified cluster node_name force) (request event answer)
  unfolding request
  justified_request event answer j = record { at = λ h k. (j, k) }

  justified_tick :
      {E : Type 0} (event : Event)
      → IsJustified cluster node_name force event
      → Keeps (AllJustified cluster node_name force) (tick {E = E} event)
  unfolding tick
  justified_tick event j = record { at = λ h k. (j, k) }

ruleset justified_rules =
    (keeps_rules, justified_request, justified_tick, Keeps-read, return_simple_error-Keeps)

module _ (cluster : Cluster) (cfg : Config) (command_id : String) (spec : DrainNodeSpec)
    (node_name : String) where
  abbrev Justified : History → Type 0
  Justified = AllJustified cluster node_name spec.force

  list_node_pods-Justified :
      (failure : String)
      → Keeps Justified (list_node_pods cluster cfg command_id spec node_name failure)
  unfolding list_node_pods
  list_node_pods-Justified failure = search justified_rules

  evict_one-Justified :
      (grace : Option ℕ) (namespace name : String)
      → IsListed cluster node_name spec.force namespace name
      → Keeps Justified (evict_one cluster cfg command_id spec node_name grace namespace name)
  unfolding evict_one
  evict_one-Justified grace namespace name j =
      Keeps-or_else _ _
        (justified_request cluster node_name spec.force (evict namespace name grace)
          (cluster.evicted namespace name grace) j)
        (λ e. return_simple_error-Keeps cluster cfg command_id _)

  cordon-Justified : Keeps Justified (cordon cluster cfg command_id spec node_name)
  unfolding cordon
  cordon-Justified = search justified_rules

  evict_all-Justified :
      (grace : Option ℕ) (pods : List (String × String))
      → All (λ p. IsListed cluster node_name spec.force p.0 p.1) pods
      → Keeps Justified (evict_all cluster cfg command_id spec node_name grace pods)
  unfolding evict_all
  evict_all-Justified grace [] j = search justified_rules
  evict_all-Justified grace ((namespace, name) ∷ rest) (j, js) =
      search
        (keeps_rules, evict_one-Justified grace namespace name j, evict_all-Justified grace rest js)

  unless_late-Justified :
      (deadline : ℕ) (remaining : List String) (again : Exec History Early Drained)
      → Keeps Justified again
      → Keeps Justified (unless_late cluster cfg command_id spec node_name deadline remaining again)
  unfolding unless_late
  unless_late-Justified deadline remaining again j = search justified_rules

  wait_drained-Justified :
      (fuel deadline : ℕ) (before : Drained)
      → Keeps Justified (wait_drained cluster cfg command_id spec node_name fuel deadline before)
  unfolding wait_drained
  wait_drained-Justified zero deadline before = search justified_rules
  wait_drained-Justified (suc fuel) deadline before =
      search (justified_rules, list_node_pods-Justified, wait_drained-Justified fuel deadline) depth
        12

  drain_pods-Justified :
      (fuel timeout : ℕ) (grace : Option ℕ) (unschedulable : Bool) (planned : Classified)
      → All (λ p. IsListed cluster node_name spec.force p.0 p.1) planned.drainable
      → Keeps Justified (
          drain_pods cluster cfg command_id spec node_name fuel timeout grace unschedulable planned)
  unfolding drain_pods
  drain_pods-Justified fuel timeout grace unschedulable planned j =
      Keeps-bind _ _ cordon-Justified λ _.
        Keeps-bind _ _ (evict_all-Justified grace planned.drainable j) λ _.
          Keeps-bind _ _ (Keeps-read cluster.instant_ms) λ start.
            Keeps-bind _ _ (wait_drained-Justified fuel (start + timeout * 1000) _)
              λ drained. Keeps-bind _ _ (Keeps-read cluster.now_ms) λ now. Keeps-pure _

  abbrev refused : Classified → String
  refused planned =
      "refusing to drain Node "
      <> node_name
      <> " because unmanaged Pods require an explicit force path: "
      <> join ", " planned.unmanaged

  drain_listed-Justified :
      (fuel timeout : ℕ) (grace : Option ℕ) (node : Node) (at : History) (pods : List Pod)
      → cluster.pods node_name at ≡ ok pods
      → Keeps Justified
          (drain_listed cluster cfg command_id spec node_name fuel timeout grace node pods)
  unfolding drain_listed
  drain_listed-Justified fuel timeout grace node at pods listed =
      let planned = classify_pods_on_node node_name pods spec.force in
      Keeps-if (not spec.force && not (is_empty planned.unmanaged))
        (return_simple_error cluster cfg command_id (refused planned))
        (drain_pods cluster cfg command_id spec node_name fuel timeout grace
          (unwrap_or node.unschedulable false) planned)
        (λ _. return_simple_error-Keeps cluster cfg command_id _)
        (λ _. drain_pods-Justified fuel timeout grace _ planned (
          All-rest (λ p. IsPlanned node_name spec.force pods p.0 p.1)
            (λ p. IsListed cluster node_name spec.force p.0 p.1) planned.drainable
            (λ p k. record { at = at; pods = pods; listed = listed; planned = k })
            (classify_pods_on_node-IsPlanned node_name pods spec.force)))

  check-Justified : Keeps Justified (ensure_cluster_action_allowed cluster cfg "drain_node")
  unfolding ensure_cluster_action_allowed list_action_policies
  check-Justified = search justified_rules

  -- The listing and what follows it.
  listing-Justified :
      (fuel timeout : ℕ) (grace : Option ℕ) (node : Node) (failure : String)
      → Keeps Justified (
          list_node_pods cluster cfg command_id spec node_name failure >>= λ pods.
          drain_listed cluster cfg command_id spec node_name fuel timeout grace node pods)
  listing-Justified fuel timeout grace node failure =
      Keeps-bind_eq _ _ (list_node_pods-Justified failure) (λ pods at listed.
        drain_listed-Justified fuel timeout grace node at pods
          (list_node_pods-listed cluster cfg command_id spec node_name failure at pods listed))

  drain_named-Justified :
      (fuel : ℕ) → Keeps Justified (drain_named cluster cfg command_id spec node_name fuel)
  unfolding drain_named
  drain_named-Justified fuel =
      Keeps-bind _ _
        (Keeps-or_else _ _ check-Justified (return_simple_error-Keeps cluster cfg command_id))
        λ _.
          Keeps-bind _ _
            (Keeps-or_else _ _ (Keeps-lift (drain_timeout_duration spec))
              (return_simple_error-Keeps cluster cfg command_id))
            λ timeout.
              Keeps-bind _ _
                (Keeps-or_else _ _ (Keeps-lift (drain_delete_options spec))
                  (return_simple_error-Keeps cluster cfg command_id))
                λ grace.
                  Keeps-bind _ _
                    (Keeps-or_else _ _
                      (justified_request cluster node_name spec.force (get_node node_name)
                        (cluster.node node_name) tt)
                      (λ e.
                        return_simple_error-Keeps cluster cfg command_id
                          ("failed to get Node " <> node_name <> ": " <> e)))
                    λ node.
                      listing-Justified fuel timeout grace node "failed to list Pods for drain "

-- If every eviction before a drain is justified, so is every one after it, where an eviction is
-- justified by a listing of the node's pods that has the pod on the node, neither a mirror pod nor a
-- DaemonSet's, and with an owner unless force was given; whether the drain ends well, ends with an
-- error half way, or times out.
pub drain_node-AllJustified :
    (cluster : Cluster) (cfg : Config) (command_id : String) (fuel : ℕ) (spec : DrainNodeSpec)
    (h : History)
    → AllJustified cluster (trim spec.node_name) spec.force h
    → AllJustified cluster
        (trim spec.node_name)
        spec.force
        (drain_node cluster cfg command_id fuel spec h).1
unfolding drain_node
drain_node-AllJustified cluster cfg command_id fuel spec h j =
    (Keeps-if (trim spec.node_name == "")
        (return_simple_error cluster cfg command_id "node_name is required")
        (drain_named cluster cfg command_id spec (trim spec.node_name) fuel)
        (λ _. return_simple_error-Keeps cluster cfg command_id _)
        (λ _. drain_named-Justified cluster cfg command_id spec (trim spec.node_name) fuel)).at
      h j
