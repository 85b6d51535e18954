-- ===== src/Executor/Drain/Wait.antt =====
-- executor.rs: the polling loop of a drain comes to an end.
use hub_kubernetes_agent.Prelude.{
  ℕ, zero, suc, ◌+◌, ◌*◌, ◌≤◌, ◌≡◌, String, List, ◌∷◌, ◌++◌, false, not, ◌&&◌, leb, ◌<>◌, is_empty,
  arith, Bool-cases, inl, inr,
}
use hub_kubernetes_agent.Exec.{Exec, or_else}
use hub_kubernetes_agent.Exec.Keeps.{Keeps, Keeps-or_else}
use hub_kubernetes_agent.Exec.Avoids.{Avoids, pure-Avoids, bind-Avoids, or_else-Avoids}
use hub_kubernetes_agent.Model.Objects.{Pod}
use hub_kubernetes_agent.Model.Command.{DrainNodeSpec}
use hub_kubernetes_agent.Executor.Api.{
  Cluster, History, Early, out_of_fuel, request, read, list_pods, sleep,
}
use hub_kubernetes_agent.Executor.Clock.{IsClock, Reached, Reached-request}
use hub_kubernetes_agent.Executor.Gate.{Config, return_simple_error}
use hub_kubernetes_agent.Executor.Gate.Quiet.{return_simple_error-Keeps}
use hub_kubernetes_agent.Executor.Drain.Plan.{classify_pods_on_node}
use hub_kubernetes_agent.Executor.Drain.{
  Drained, list_node_pods, wait_drained, unless_late, forced, pod_texts,
}

module _ (cluster : Cluster) (cfg : Config) (command_id : String) where
  pub simple_error-Avoids :
      {A : Type 0} (message : String) (h : History)
      → Avoids out_of_fuel (return_simple_error cluster cfg {A = A} command_id message) h
  unfolding return_simple_error
  simple_error-Avoids message h = λ k. cc

  -- A step that may return early with a plain error.
  pub step-Avoids :
      {A : Type 0} (m : Exec History String A) (wrap : String → String) (h : History)
      → Avoids out_of_fuel (or_else m (λ e. return_simple_error cluster cfg command_id (wrap e))) h
  step-Avoids m wrap h =
      or_else-Avoids out_of_fuel m (λ e. return_simple_error cluster cfg command_id (wrap e)) h
        (λ e t. simple_error-Avoids (wrap e) t)

due : (deadline now : ℕ) → leb deadline now ≡ false → deadline ≤ now → ⊥
due deadline now early reached = ground arith

module _ (cluster : Cluster) (cfg : Config) (command_id : String) (spec : DrainNodeSpec)
    (node_name : String) where
  pub list_node_pods-Avoids :
      (failure : String) (h : History)
      → Avoids out_of_fuel (list_node_pods cluster cfg command_id spec node_name failure) h
  unfolding list_node_pods
  list_node_pods-Avoids failure h =
      step-Avoids cluster cfg command_id (request (list_pods node_name) (cluster.pods node_name))
        (λ e. failure <> node_name <> ": " <> e) h

  list_node_pods-Reached :
      (failure : String) (time : ℕ)
      → IsClock cluster.instant_ms
      → Keeps
          (Reached cluster.instant_ms time)
          (list_node_pods cluster cfg command_id spec node_name failure)
  unfolding list_node_pods
  list_node_pods-Reached failure time law =
      Keeps-or_else _ _
        (Reached-request cluster.instant_ms time (list_pods node_name) (cluster.pods node_name) law)
        (λ e. return_simple_error-Keeps cluster cfg command_id _)

  unless_late-Avoids :
      (deadline : ℕ) (remaining : List String) (again : Exec History Early Drained) (h : History)
      → (leb deadline (cluster.instant_ms h) ≡ false → Avoids out_of_fuel again (sleep 5_000 ∷ h))
      → Avoids out_of_fuel
          (unless_late cluster cfg command_id spec node_name deadline remaining again)
          h
  unfolding unless_late read
  unless_late-Avoids deadline remaining again h next =
      elim (Bool-cases (leb deadline (cluster.instant_ms h))) [
        | inl late ↦ rw late (simple_error-Avoids cluster cfg command_id _ h)
        | inr early ↦ rw early (next early)
      ]

  abbrev polled : Exec History Early (List Pod)
  polled =
      list_node_pods cluster cfg command_id spec node_name
        "failed to poll Pods while draining Node "

  polled_later :
      (h : History)
      → IsClock cluster.instant_ms
      → cluster.instant_ms h ≤ cluster.instant_ms (polled h).1
  polled_later h law = (list_node_pods-Reached _ (cluster.instant_ms h) law).at h (omega arith)

  round-Avoids :
      (fuel deadline : ℕ) (before : Drained) (h : History)
      → ((after : Drained)
          → leb deadline (cluster.instant_ms (polled h).1) ≡ false
          → Avoids out_of_fuel
              (wait_drained cluster cfg command_id spec node_name fuel deadline after)
              (sleep 5_000 ∷ (polled h).1))
      → Avoids out_of_fuel
          (wait_drained cluster cfg command_id spec node_name (suc fuel) deadline before)
          h
  unfolding wait_drained
  round-Avoids fuel deadline before h next =
      bind-Avoids out_of_fuel polled _ h (list_node_pods-Avoids _ h) (λ pods listed.
        let still = classify_pods_on_node node_name pods spec.force in
        let after : Drained = record {
          warnings = before.warnings ++ forced still.unmanaged;
          remaining = pod_texts still.drainable;
        } in
        let again = wait_drained cluster cfg command_id spec node_name fuel deadline after in
        elim (Bool-cases (not (is_empty still.unmanaged) && not spec.force)) [
          | inl gained ↦ rw gained (simple_error-Avoids cluster cfg command_id _ (polled h).1)
          | inr fine ↦ rw fine (elim (Bool-cases (is_empty still.drainable)) [
            | inl gone ↦ rw gone (pure-Avoids out_of_fuel _ (polled h).1)
            | inr left ↦
                rw left
                  (unless_late-Avoids deadline after.remaining again (polled h).1 (next after))
          ])
        ])

  -- What is left of the time is enough for the rounds that are left.
  pub wait_drained-Avoids :
      (fuel deadline : ℕ) (before : Drained) (h : History)
      → IsClock cluster.instant_ms
      → deadline ≤ cluster.instant_ms h + 5_000 * fuel
      → Avoids out_of_fuel
          (wait_drained cluster cfg command_id spec node_name (suc fuel) deadline before)
          h
  wait_drained-Avoids zero deadline before h law enough =
      round-Avoids zero deadline before h (λ after early.
        let later : cluster.instant_ms h ≤ cluster.instant_ms (polled h).1 = polled_later h law in
        absurd (due deadline (cluster.instant_ms (polled h).1) early (omega arith)))
  wait_drained-Avoids (suc fuel) deadline before h law enough =
      round-Avoids (suc fuel) deadline before h (λ after early.
        let later : cluster.instant_ms h ≤ cluster.instant_ms (polled h).1 = polled_later h law in
        let slept = law.waits 5_000 (polled h).1 in
        wait_drained-Avoids fuel deadline after (sleep 5_000 ∷ (polled h).1) law (omega arith))
