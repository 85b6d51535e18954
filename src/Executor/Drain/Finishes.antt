-- ===== src/Executor/Drain/Finishes.antt =====
-- executor.rs: a drain comes to an end, whatever the API server answers.
use hub_kubernetes_agent.Prelude.{
  ℕ, suc, ◌+◌, ◌*◌, ◌≤◌, ◌≡◌, String, Option, some, List, [], ◌∷◌, ◌++◌, Bool, false, not, ◌&&◌,
  if◌then◌else◌, ◌==◌, ◌<>◌, is_empty, trim, unwrap_or, ok, arith, Bool-cases, inl, inr,
}
use hub_kubernetes_agent.Exec.{lift, or_else}
use hub_kubernetes_agent.Exec.Avoids.{Avoids, pure-Avoids, bind-Avoids}
use hub_kubernetes_agent.Model.Objects.{Node, Pod}
use hub_kubernetes_agent.Model.Command.{DrainNodeSpec}
use hub_kubernetes_agent.Model.Result.{CommandResult}
use hub_kubernetes_agent.Executor.Api.{
  Cluster, History, out_of_fuel, finish, request, get_node, patch_node, evict,
}
use hub_kubernetes_agent.Executor.Clock.{IsClock, finish-Avoids, read-Avoids}
use hub_kubernetes_agent.Executor.Gate.{Config, ensure_cluster_action_allowed, return_simple_error}
use hub_kubernetes_agent.Executor.Drain.Plan.{
  Classified, classify_pods_on_node, drain_timeout_duration, drain_delete_options,
}
use hub_kubernetes_agent.Executor.Drain.{
  cordon, evict_one, list_node_pods, evict_all, wait_drained, cordon_patch, forced, drain_pods,
  drain_listed, drain_named, drain_node,
}
use hub_kubernetes_agent.Executor.Drain.Wait.{
  simple_error-Avoids, step-Avoids, list_node_pods-Avoids, wait_drained-Avoids,
}

module _ (cluster : Cluster) (cfg : Config) (command_id : String) (spec : DrainNodeSpec)
    (node_name : String) where
  evict_one-Avoids :
      (grace : Option ℕ) (namespace name : String) (h : History)
      → Avoids out_of_fuel (evict_one cluster cfg command_id spec node_name grace namespace name) h
  unfolding evict_one
  evict_one-Avoids grace namespace name h =
      step-Avoids cluster cfg command_id
        (request (evict namespace name grace) (cluster.evicted namespace name grace))
        (λ e.
          "failed to evict Pod " <> namespace <> "/" <> name <> " while draining Node " <> node_name
          <> ": " <> e)
        h

  evict_all-Avoids :
      (grace : Option ℕ) (pods : List (String × String)) (h : History)
      → Avoids out_of_fuel (evict_all cluster cfg command_id spec node_name grace pods) h
  unfolding evict_all
  evict_all-Avoids grace [] h = pure-Avoids out_of_fuel tt h
  evict_all-Avoids grace ((namespace, name) ∷ rest) h =
      let first = evict_one cluster cfg command_id spec node_name grace namespace name in
      bind-Avoids out_of_fuel first
        (λ _. evict_all cluster cfg command_id spec node_name grace rest) h
        (evict_one-Avoids grace namespace name h) (λ _ _. evict_all-Avoids grace rest (first h).1)

  cordon-Avoids :
      (h : History) → Avoids out_of_fuel (cordon cluster cfg command_id spec node_name) h
  unfolding cordon
  cordon-Avoids h =
      step-Avoids cluster cfg command_id
        (request (patch_node node_name cordon_patch) (cluster.node_patched node_name cordon_patch))
        (λ e. "failed to cordon Node " <> node_name <> ": " <> e) h

  drain_pods-Avoids :
      (fuel timeout : ℕ) (grace : Option ℕ) (unschedulable : Bool) (planned : Classified)
      (h : History)
      → IsClock cluster.instant_ms
      → timeout * 1_000 ≤ 5_000 * fuel
      → Avoids out_of_fuel
          (drain_pods cluster cfg command_id spec node_name
            (suc fuel)
            timeout
            grace
            unschedulable
            planned)
          h
  unfolding drain_pods
  drain_pods-Avoids fuel timeout grace unschedulable planned h law enough =
      let cordoning = cordon cluster cfg command_id spec node_name in
      let evicting = evict_all cluster cfg command_id spec node_name grace planned.drainable in
      let h₁ = (cordoning h).1 in
      let h₂ = (evicting h₁).1 in
      bind-Avoids out_of_fuel cordoning _ h (cordon-Avoids h) (λ _ _.
        bind-Avoids out_of_fuel evicting _ h₁ (evict_all-Avoids grace planned.drainable h₁) (λ _ _.
          read-Avoids out_of_fuel cluster.instant_ms _ h₂ (
            bind-Avoids out_of_fuel
              (wait_drained cluster cfg command_id spec node_name (suc fuel)
                (cluster.instant_ms h₂ + timeout * 1_000)
                (record {
                  warnings =
                      planned.ignored ++ (if spec.force then forced planned.unmanaged else []);
                  remaining = [];
                }))
              _ h₂
              (wait_drained-Avoids cluster cfg command_id spec node_name fuel
                (cluster.instant_ms h₂ + timeout * 1_000) _ h₂ law (omega arith))
              (λ drained _.
                read-Avoids out_of_fuel cluster.now_ms _ _ (pure-Avoids out_of_fuel _ _)))))

  drain_listed-Avoids :
      (fuel timeout : ℕ) (grace : Option ℕ) (node : Node) (pods : List Pod) (h : History)
      → IsClock cluster.instant_ms
      → timeout * 1_000 ≤ 5_000 * fuel
      → Avoids out_of_fuel
          (drain_listed cluster cfg command_id spec node_name (suc fuel) timeout grace node pods)
          h
  unfolding drain_listed
  drain_listed-Avoids fuel timeout grace node pods h law enough =
      let planned = classify_pods_on_node node_name pods spec.force in
      elim (Bool-cases (not spec.force && not (is_empty planned.unmanaged))) [
        | inl refused ↦ rw refused (simple_error-Avoids cluster cfg command_id _ h)
        | inr fine ↦ rw fine (
            drain_pods-Avoids fuel timeout grace (unwrap_or node.unschedulable false) planned h law
              enough)
      ]

  timeout_in_range :
      (seconds : ℕ) (h : History)
      → (or_else
          (lift (drain_timeout_duration spec))
          (return_simple_error cluster cfg command_id)
          h).0
        ≡ ok seconds
      → seconds ≤ 3_600
  unfolding drain_timeout_duration or_else return_simple_error lift
  timeout_in_range seconds h k = ground arith

  drain_named-Avoids :
      (fuel : ℕ) (h : History)
      → IsClock cluster.instant_ms
      → 720 ≤ fuel
      → Avoids out_of_fuel (drain_named cluster cfg command_id spec node_name (suc fuel)) h
  unfolding drain_named
  drain_named-Avoids fuel h law enough =
      let check = ensure_cluster_action_allowed cluster cfg "drain_node" in
      let checked = or_else check (return_simple_error cluster cfg command_id) in
      let timed =
        or_else (lift (drain_timeout_duration spec)) (return_simple_error cluster cfg command_id) in
      let graced =
        or_else (lift (drain_delete_options spec)) (return_simple_error cluster cfg command_id) in
      let got = or_else (request (get_node node_name) (cluster.node node_name)) (λ e.
        return_simple_error cluster cfg command_id
          ("failed to get Node " <> node_name <> ": " <> e)) in
      let listed =
        list_node_pods cluster cfg command_id spec node_name "failed to list Pods for drain " in
      let h₁ = (checked h).1 in
      let h₂ = (timed h₁).1 in
      let h₃ = (graced h₂).1 in
      let h₄ = (got h₃).1 in
      bind-Avoids out_of_fuel checked _ h (step-Avoids cluster cfg command_id check (λ e. e) h)
        (λ _ _.
          bind-Avoids out_of_fuel timed _ h₁
            (step-Avoids cluster cfg command_id (lift (drain_timeout_duration spec)) (λ e. e) h₁)
            (λ timeout k.
              bind-Avoids out_of_fuel graced _ h₂
                (step-Avoids cluster cfg command_id (lift (drain_delete_options spec)) (λ e. e) h₂)
                (λ grace _.
                  bind-Avoids out_of_fuel got _ h₃
                    (step-Avoids cluster cfg command_id
                      (request (get_node node_name) (cluster.node node_name)) _ h₃)
                    (λ node _.
                      bind-Avoids out_of_fuel listed _ h₄
                        (list_node_pods-Avoids cluster cfg command_id spec node_name _ h₄)
                        (λ pods _.
                          let range : timeout ≤ 3_600 = timeout_in_range timeout h₁ k in
                          drain_listed-Avoids fuel timeout grace node pods (listed h₄).1 law
                            (omega arith))))))

-- If the monotonic clock never goes back and a sleep lasts as long as it was asked to, then a drain
-- with fuel for 721 rounds, which are the rounds of the longest timeout, has a result, whatever the
-- API server answers.
pub drain_node-finishes :
    (cluster : Cluster) (cfg : Config) (command_id : String) (fuel : ℕ) (spec : DrainNodeSpec)
    (h : History)
    → IsClock cluster.instant_ms
    → 720 ≤ fuel
    → (result : CommandResult) × ((finish (drain_node cluster cfg command_id (suc fuel) spec h)).0
        ≡ some result)
unfolding drain_node
drain_node-finishes cluster cfg command_id fuel spec h law enough =
    finish-Avoids (drain_node cluster cfg command_id (suc fuel) spec h)
      (elim (Bool-cases (trim spec.node_name == "")) [
        | inl empty ↦ rw empty (simple_error-Avoids cluster cfg command_id _ h)
        | inr named ↦
            rw named (
              drain_named-Avoids cluster cfg command_id spec (trim spec.node_name) fuel h law
                enough)
      ])
