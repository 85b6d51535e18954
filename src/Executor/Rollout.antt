-- ===== src/Executor/Rollout.antt =====
-- executor.rs: `rollout_restart`. The wait for completion runs on fuel, one unit for a round.
pub mod Verify
pub mod Live
pub mod Finishes
use text.Mathlib.Text.{◌==◌}
use hub_kubernetes_agent.Prelude.{
  ℕ, zero, suc, ◌+◌, String, Option, none, some, List, [], ◌∷◌, Bool, true, false, ltb,
  if◌then◌else◌, ◌<>◌, ◌||◌,
}
use hub_kubernetes_agent.Exec.{Exec, pure, fail, ◌>>=◌, ◌>>◌, or_else}
use hub_kubernetes_agent.Model.Command.{RolloutRestartSpec}
use hub_kubernetes_agent.Model.Json.{Json, string, obj, optional_text}
use hub_kubernetes_agent.Model.Result.{ActionVerification, CommandResult, simple}
use hub_kubernetes_agent.Executor.Api.{
  Cluster, History, request, read, Early, returned, out_of_fuel, Handler, Workload, get_workload,
  patch_workload, sleep, tick,
}
use hub_kubernetes_agent.Executor.Gate.{
  Config, mode_text, is_preview, ensure_effective_policy_allows, return_error,
}
use Verify.{Observed, rollout_of, is_workload_kind}

pub rollout_restart_patch : String → Json
rollout_restart_patch restart_at = obj (
    (
      "spec",
      obj (
          (
            "template",
            obj (
                (
                  "metadata",
                  obj (
                      (
                        "annotations",
                        obj (("kubectl.kubernetes.io/restartedAt", string restart_at) ∷ []),
                      )
                      ∷ []),
                )
                ∷ []),
          )
          ∷ []),
    )
    ∷ [])

pub requested_restart : RolloutRestartSpec → String → Json
requested_restart spec restart_at = obj (
    ("execution", obj (("mode", string (mode_text spec.execution.mode)) ∷ []))
    ∷ (
      "target",
      obj (
          ("kind", string spec.target.kind)
          ∷ ("namespace", string spec.target.namespace)
          ∷ ("name", string spec.target.name)
          ∷ []),
    )
    ∷ ("restartedAt", string restart_at)
    ∷ [])

restarted_at : Workload → Json
restarted_at workload = obj (("restartedAt", optional_text workload.restarted_at) ∷ [])

-- The wait ends with an error, or, in the model alone, for want of fuel.
pub data WaitError : Type 0 where
  failed : String → WaitError
  exhausted : WaitError

abbrev pub rollout_timeout_ms : ℕ
rollout_timeout_ms = 120_000

module _ (cluster : Cluster) where
  pub read_workload : String → String → String → Exec History String Workload
  unfolding request
  read_workload kind namespace name =
      request (get_workload kind namespace name) (cluster.workload kind namespace name)

  -- The three arms of the source differ in the type of the object alone. What it returns is the
  -- annotation that was read before the patch, in a dry run and for real.
  unfoldable pub apply_rollout_restart_patch :
      String → String → String → Json → Bool → Exec History String Json
  unfolding read_workload request restarted_at fail pure or_else ◌>>=◌ ◌>>◌
  apply_rollout_restart_patch kind namespace name patch dry_run =
      if is_workload_kind kind
      then (do
        before ←
            or_else (read_workload kind namespace name)
              (λ e. fail ("failed to get " <> kind <> " " <> name <> ": " <> e))
        or_else
            (request (patch_workload kind namespace name patch dry_run)
              (cluster.workload_patched kind namespace name patch dry_run))
            (λ e. fail (
              (if dry_run then "dry-run" else "apply")
              <> " patch failed for "
              <> kind
              <> " "
              <> name
              <> ": "
              <> e))
        pure (restarted_at before))
      else fail (
          "unsupported rollout_restart target kind " <> kind
          <> "; expected Deployment, StatefulSet, or DaemonSet")

  -- The read and the verdict of one round.
  pub verify_rollout : String → String → String → Exec History WaitError Observed
  unfolding read_workload fail pure or_else ◌>>=◌
  verify_rollout kind namespace name =
      if is_workload_kind kind
      then (do
        workload ← or_else (read_workload kind namespace name) (λ e. fail (
            failed
              ("failed to read " <> kind <> " " <> name <> " for rollout verification: " <> e)))
        pure (rollout_of kind workload))
      else fail (
          failed (
            "unsupported rollout verification target kind " <> kind
            <> "; expected Deployment, StatefulSet, or DaemonSet"))

  -- The loop, up to a deadline.
  unfoldable pub wait_until :
      ℕ → ℕ → String → String → String → Exec History WaitError ActionVerification
  unfolding verify_rollout read fail pure tick ◌>>=◌ ◌>>◌
  wait_until zero deadline kind namespace name = fail exhausted
  wait_until (suc fuel) deadline kind namespace name = do
    let again = wait_until fuel deadline kind namespace name
    now ← read cluster.now_ms
    if ltb deadline now
        then fail (
            failed
              ("rollout verification timed out for " <> namespace <> "/" <> kind <> " " <> name))
        else do
          observed ← verify_rollout kind namespace name
          if observed.ready
              then pure (record {
                status = "ready";
                message = some "workload rollout completed successfully";
                observed_state = some observed.value;
              })
              else do tick (sleep 2_000); again

  unfoldable pub wait_for_rollout_completion :
      ℕ → String → String → String → Exec History WaitError ActionVerification
  unfolding wait_until read ◌>>=◌
  wait_for_rollout_completion fuel kind namespace name = do
    start ← read cluster.now_ms
    wait_until fuel (start + rollout_timeout_ms) kind namespace name

-- The result with the verification that the wait returned.
unfoldable pub recorded :
    CommandResult → Exec History WaitError ActionVerification → Exec History WaitError CommandResult
unfolding pure ◌>>=◌
recorded result wait = do
  verification ← wait
  pure (record result { verification = some verification })

module _ (cluster : Cluster) (cfg : Config) (command_id : String) (fuel : ℕ) where
  -- What is returned where the wait fails.
  unfoldable pub verification_failed : CommandResult → WaitError → Handler
  unfolding fail pure
  verification_failed result (failed message) = pure (record result {
    status = "error";
    message = some message;
    verification = some (record {
      status = "failed";
      message = some "rollout verification failed";
      observed_state = none;
    });
  })
  verification_failed result exhausted = fail out_of_fuel

  -- From the live patch on.
  unfoldable pub rollout_apply : RolloutRestartSpec → Json → CommandResult → Handler
  unfolding apply_rollout_restart_patch wait_for_rollout_completion verification_failed return_error
      recorded or_else ◌>>=◌
  rollout_apply spec patch result = do
    applied ←
        or_else
          (apply_rollout_restart_patch cluster spec.target.kind spec.target.namespace
            spec.target.name patch false)
          (return_error cluster cfg command_id spec.execution.mode)
    let live = record result { dry_run = some false; observed_after = some applied }
    or_else
        (recorded live (
          wait_for_rollout_completion cluster fuel spec.target.kind spec.target.namespace
            spec.target.name))
        (verification_failed live)

  -- What follows the policy check.
  unfoldable pub rollout_checked : RolloutRestartSpec → Handler
  unfolding apply_rollout_restart_patch rollout_apply return_error rollout_restart_patch
      requested_restart read pure or_else ◌>>=◌
  rollout_checked spec = do
    restart_at ← read cluster.now_rfc3339
    now ← read cluster.now_ms
    let patch = rollout_restart_patch restart_at
    observed_before ←
        or_else
          (apply_rollout_restart_patch cluster spec.target.kind spec.target.namespace
            spec.target.name patch true)
          (return_error cluster cfg command_id spec.execution.mode)
    let result = record (simple now command_id "ok" none) {
      requested_state = some (requested_restart spec restart_at);
      dry_run = some true;
      applied_patch = some patch;
      observed_before = some observed_before;
      observed_after = some observed_before;
    }
    if is_preview spec.execution.mode then pure result else rollout_apply spec patch result

  unfoldable pub rollout_restart : RolloutRestartSpec → Handler
  unfolding ensure_effective_policy_allows rollout_checked return_error or_else ◌>>=◌
  rollout_restart spec = do
    policy ←
        or_else
          (ensure_effective_policy_allows cluster cfg spec.target.namespace "rollout_restart"
            (some spec.target.kind) none)
          (return_error cluster cfg command_id spec.execution.mode)
    rollout_checked spec
