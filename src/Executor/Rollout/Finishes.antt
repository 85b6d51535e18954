-- ===== src/Executor/Rollout/Finishes.antt =====
-- executor.rs: the wait of a restart comes to an end, whatever the API server answers.
use hub_kubernetes_agent.Prelude.{
  ℕ, zero, suc, ◌+◌, ◌*◌, ◌≤◌, ◌<◌, ◌≡◌, ◌≢◌, refl, String, none, some, ◌∷◌, true, false, ltb, ◌<>◌,
  Result, ok, err, arith, Bool-cases, inl, inr,
}
use hub_kubernetes_agent.Exec.{fail, or_else}
use hub_kubernetes_agent.Exec.Keeps.{
  Keeps, Keeps-or_else, Keeps-fail, Keeps-bind, Keeps-if, Keeps-pure,
}
use hub_kubernetes_agent.Exec.Avoids.{Avoids, ok_apart, pure-Avoids, bind-Avoids, or_else-Avoids}
use hub_kubernetes_agent.Model.Result.{simple, CommandResult}
use hub_kubernetes_agent.Model.Json.{Json}
use hub_kubernetes_agent.Model.Command.{ExecutionMode, RolloutRestartSpec}
use hub_kubernetes_agent.Executor.Gate.{
  Config, is_preview, ensure_effective_policy_allows, return_error,
}
use hub_kubernetes_agent.Executor.Api.{finish, out_of_fuel, Cluster, History, sleep}
use hub_kubernetes_agent.Executor.Clock.{
  IsClock, LosesAtMost, Extends, same, one_more, Extends-request, Reached, Reached-request,
  finish-Avoids,
}
use hub_kubernetes_agent.Executor.Rollout.Verify.{is_workload_kind}
use hub_kubernetes_agent.Executor.Rollout.{
  WaitError, failed, exhausted, read_workload, verify_rollout, wait_until,
  wait_for_rollout_completion, rollout_timeout_ms, recorded, verification_failed, rollout_apply,
  rollout_checked, rollout_restart, rollout_restart_patch, requested_restart,
  apply_rollout_restart_patch,
}

fail-Avoids :
    {A : Type 0} (message : String) (h : History)
    → Avoids exhausted (fail {A = A} (failed message)) h
unfolding fail
fail-Avoids message h = λ k. cc

module _ (cluster : Cluster) (kind namespace name : String) where
  verify_rollout-Avoids :
      (h : History) → Avoids exhausted (verify_rollout cluster kind namespace name) h
  unfolding verify_rollout
  verify_rollout-Avoids h = elim (Bool-cases (is_workload_kind kind)) [
    | inl known ↦ rw known (
        bind-Avoids exhausted
          (or_else (read_workload cluster kind namespace name) (λ e. fail (
            failed
              ("failed to read " <> kind <> " " <> name <> " for rollout verification: " <> e))))
          _ h
          (or_else-Avoids exhausted (read_workload cluster kind namespace name) _ h
            (λ e t. fail-Avoids _ t))
          (λ workload _. ok_apart exhausted _))
    | inr unknown ↦ rw unknown (fail-Avoids _ h)
  ]

  verify_rollout-Reached :
      (time : ℕ)
      → IsClock cluster.instant_ms
      → Keeps (Reached cluster.instant_ms time) (verify_rollout cluster kind namespace name)
  unfolding verify_rollout read_workload
  verify_rollout-Reached time law =
      search (Keeps-if, Keeps-bind, Keeps-or_else, Keeps-fail, Keeps-pure, Reached-request, law)
        depth 10

  verify_rollout-later :
      (h : History)
      → IsClock cluster.instant_ms
      → cluster.instant_ms h ≤ cluster.instant_ms (verify_rollout cluster kind namespace name h).1
  verify_rollout-later h law =
      (verify_rollout-Reached (cluster.instant_ms h) law).at h (omega arith)

  verify_rollout-Extends :
      (start : History) → Keeps (Extends start) (verify_rollout cluster kind namespace name)
  unfolding verify_rollout read_workload
  verify_rollout-Extends start =
      search (Keeps-if, Keeps-bind, Keeps-or_else, Keeps-fail, Keeps-pure, Extends-request) depth 10

  round-Avoids :
      (fuel deadline : ℕ) (h : History)
      → (ltb deadline (cluster.now_ms h) ≡ false
          → Avoids exhausted
              (wait_until cluster fuel deadline kind namespace name)
              (sleep 2_000 ∷ (verify_rollout cluster kind namespace name h).1))
      → Avoids exhausted (wait_until cluster (suc fuel) deadline kind namespace name) h
  unfolding wait_until
  round-Avoids fuel deadline h next =
      let verify = verify_rollout cluster kind namespace name in
      (elim (Bool-cases (ltb deadline (cluster.now_ms h))) [
        | inl late ↦ rw late (fail-Avoids _ h)
        | inr early ↦ rw early (
            bind-Avoids exhausted verify _ h (verify_rollout-Avoids h) (λ observed _.
              elim (Bool-cases observed.ready) [
                | inl ready ↦ rw ready (pure-Avoids exhausted _ (verify h).1)
                | inr not_yet ↦ rw not_yet (next early)
              ]))
      ])

-- The deadline has passed once the monotonic clock has, with what the wall clock may have lost.
due :
    (back start now began elapsed : ℕ)
    → ltb (start + rollout_timeout_ms) now ≡ false
    → start + elapsed ≤ now + began + back
    → began + rollout_timeout_ms + back < elapsed
    → ⊥
due back start now began elapsed early lost passed = ground arith

module _ (cluster : Cluster) (back : ℕ) (kind namespace name : String) (start : History)
    (law : IsClock cluster.instant_ms)
    (lost : LosesAtMost back cluster.instant_ms cluster.now_ms) where
  wait_until-Avoids :
      (fuel : ℕ) (h : History)
      → Extends start h
      → cluster.instant_ms start + rollout_timeout_ms + back < cluster.instant_ms h + 2_000 * fuel
      → Avoids exhausted
          (wait_until cluster
            (suc fuel)
            (cluster.now_ms start + rollout_timeout_ms)
            kind
            namespace
            name)
          h
  wait_until-Avoids zero h later enough =
      round-Avoids cluster kind namespace name zero (cluster.now_ms start + rollout_timeout_ms) h
        (λ early. absurd (
          due back (cluster.now_ms start) (cluster.now_ms h) (cluster.instant_ms start)
            (cluster.instant_ms h) early (lost.loses start h later) (omega arith)))
  wait_until-Avoids (suc fuel) h later enough =
      round-Avoids cluster kind namespace name (suc fuel)
        (cluster.now_ms start + rollout_timeout_ms) h
        (λ early.
          let h₁ = (verify_rollout cluster kind namespace name h).1 in
          let forward : cluster.instant_ms h ≤ cluster.instant_ms h₁ =
            verify_rollout-later cluster kind namespace name h law in
          let slept : 2_000 + cluster.instant_ms h₁ ≤ cluster.instant_ms (sleep 2_000 ∷ h₁) =
            law.waits 2_000 h₁ in
          let still = (verify_rollout-Extends cluster kind namespace name start).at h later in
          wait_until-Avoids fuel (sleep 2_000 ∷ h₁) (one_more (sleep 2_000) h₁ still) (omega arith))

wait_for_rollout_completion-Avoids :
    (cluster : Cluster) (back fuel : ℕ) (kind namespace name : String) (h : History)
    → IsClock cluster.instant_ms
    → LosesAtMost back cluster.instant_ms cluster.now_ms
    → rollout_timeout_ms + back < 2_000 * fuel
    → Avoids exhausted (wait_for_rollout_completion cluster (suc fuel) kind namespace name) h
unfolding wait_for_rollout_completion
wait_for_rollout_completion-Avoids cluster back fuel kind namespace name h law lost enough =
    wait_until-Avoids cluster back kind namespace name h law lost fuel h same (omega arith)

module _ (cluster : Cluster) (cfg : Config) (command_id : String) (back fuel : ℕ) where
  error-Avoids :
      {A : Type 0} (mode : ExecutionMode) (message : String) (h : History)
      → Avoids out_of_fuel (return_error cluster cfg {A = A} command_id mode message) h
  unfolding return_error
  error-Avoids mode message h = λ k. cc

  -- Where the wait does not lack fuel, neither does what handles its outcome.
  handled-Avoids :
      (live : CommandResult) (r : Result WaitError CommandResult) (h : History)
      → r ≢ err exhausted
      → Avoids out_of_fuel
          (or_else (λ s. (r, s)) (verification_failed cluster cfg command_id (suc fuel) live))
          h
  unfolding verification_failed or_else
  handled-Avoids live (ok result) h apart = ok_apart out_of_fuel result
  handled-Avoids live (err (failed message)) h apart = ok_apart out_of_fuel _
  handled-Avoids live (err exhausted) h apart = absurd (apart refl)

  recorded-Avoids :
      (live : CommandResult) (kind namespace name : String) (h : History)
      → IsClock cluster.instant_ms
      → LosesAtMost back cluster.instant_ms cluster.now_ms
      → rollout_timeout_ms + back < 2_000 * fuel
      → Avoids exhausted
          (recorded live (wait_for_rollout_completion cluster (suc fuel) kind namespace name))
          h
  unfolding recorded
  recorded-Avoids live kind namespace name h law lost enough =
      bind-Avoids exhausted (wait_for_rollout_completion cluster (suc fuel) kind namespace name) _ h
        (wait_for_rollout_completion-Avoids cluster back fuel kind namespace name h law lost enough)
        (λ verification _. ok_apart exhausted _)

  rollout_apply-Avoids :
      (spec : RolloutRestartSpec) (patch : Json) (result : CommandResult) (h : History)
      → IsClock cluster.instant_ms
      → LosesAtMost back cluster.instant_ms cluster.now_ms
      → rollout_timeout_ms + back < 2_000 * fuel
      → Avoids out_of_fuel (rollout_apply cluster cfg command_id (suc fuel) spec patch result) h
  unfolding rollout_apply
  rollout_apply-Avoids spec patch result h law lost enough =
      let applying =
        or_else
          (apply_rollout_restart_patch cluster spec.target.kind spec.target.namespace
            spec.target.name patch false)
          (return_error cluster cfg command_id spec.execution.mode) in
      let h₁ = (applying h).1 in
      bind-Avoids out_of_fuel applying _ h
        (or_else-Avoids out_of_fuel
          (apply_rollout_restart_patch cluster spec.target.kind spec.target.namespace
            spec.target.name patch false)
          (return_error cluster cfg command_id spec.execution.mode) h
          (error-Avoids spec.execution.mode))
        (λ applied _.
          let live = record result { dry_run = some false; observed_after = some applied } in
          let waited = recorded live (
            wait_for_rollout_completion cluster (suc fuel) spec.target.kind spec.target.namespace
              spec.target.name) in
          handled-Avoids live (waited h₁).0 (waited h₁).1 (
            recorded-Avoids live spec.target.kind spec.target.namespace spec.target.name h₁ law lost
              enough))

  rollout_checked-Avoids :
      (spec : RolloutRestartSpec) (h : History)
      → IsClock cluster.instant_ms
      → LosesAtMost back cluster.instant_ms cluster.now_ms
      → rollout_timeout_ms + back < 2_000 * fuel
      → Avoids out_of_fuel (rollout_checked cluster cfg command_id (suc fuel) spec) h
  unfolding rollout_checked
  rollout_checked-Avoids spec h law lost enough =
      let patch = rollout_restart_patch (cluster.now_rfc3339 h) in
      let trying =
        or_else
          (apply_rollout_restart_patch cluster spec.target.kind spec.target.namespace
            spec.target.name patch true)
          (return_error cluster cfg command_id spec.execution.mode) in
      bind-Avoids out_of_fuel trying _ h
        (or_else-Avoids out_of_fuel
          (apply_rollout_restart_patch cluster spec.target.kind spec.target.namespace
            spec.target.name patch true)
          (return_error cluster cfg command_id spec.execution.mode) h
          (error-Avoids spec.execution.mode))
        (λ observed _.
          let result = record (simple (cluster.now_ms h) command_id "ok" none) {
            requested_state = some (requested_restart spec (cluster.now_rfc3339 h));
            dry_run = some true;
            applied_patch = some patch;
            observed_before = some observed;
            observed_after = some observed;
          } in
          elim (Bool-cases (is_preview spec.execution.mode)) [
            | inl preview_only ↦ rw preview_only (ok_apart out_of_fuel _)
            | inr live ↦
                rw live (rollout_apply-Avoids spec patch result (trying h).1 law lost enough)
          ])

-- A restart has a result, whatever the API server answers: where the monotonic clock never goes back,
-- a sleep lasts as long as it was asked to, and the wall clock, which the deadline is read on, is set
-- back against the monotonic one by no more than some time, it is enough to have fuel for the rounds,
-- of two seconds each, that two minutes and that time hold, and for two more.
pub rollout_restart-finishes :
    (cluster : Cluster) (cfg : Config) (command_id : String) (back fuel : ℕ)
    (spec : RolloutRestartSpec) (h : History)
    → IsClock cluster.instant_ms
    → LosesAtMost back cluster.instant_ms cluster.now_ms
    → rollout_timeout_ms + back < 2_000 * fuel
    → (result : CommandResult) × ((finish
          (rollout_restart cluster cfg command_id (suc fuel) spec h)).0
        ≡ some result)
unfolding rollout_restart
rollout_restart-finishes cluster cfg command_id back fuel spec h law lost enough =
    let check =
      ensure_effective_policy_allows cluster cfg spec.target.namespace "rollout_restart"
        (some spec.target.kind) none in
    let checked = or_else check (return_error cluster cfg command_id spec.execution.mode) in
    finish-Avoids (rollout_restart cluster cfg command_id (suc fuel) spec h) (
      bind-Avoids out_of_fuel checked _ h
        (or_else-Avoids out_of_fuel check (return_error cluster cfg command_id spec.execution.mode)
          h (error-Avoids cluster cfg command_id back fuel spec.execution.mode))
        (λ _ _.
          rollout_checked-Avoids cluster cfg command_id back fuel spec (checked h).1 law lost
            enough))
