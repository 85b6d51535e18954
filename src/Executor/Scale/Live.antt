-- ===== src/Executor/Scale/Live.antt =====
-- executor.rs: when a scale command changes the cluster.
use hub_kubernetes_agent.Prelude.{
  ◌≡◌, refl, ◌==◌, eq_iff, String, none, some, Bool, true, false, not, Bool-cases, inl, inr,
}
use hub_kubernetes_agent.Exec.Escapes.{or_else_escape, if_escape}
use hub_kubernetes_agent.Model.Command.{ScaleSpec}
use hub_kubernetes_agent.Executor.Api.{Cluster, History}
use hub_kubernetes_agent.Executor.Gate.{
  Config, is_preview, ensure_effective_policy_allows, return_error,
}
use hub_kubernetes_agent.Executor.Gate.Quiet.{
  IsQuiet, ensure_effective_policy_allows-IsQuiet, return_error-Keeps,
}
use hub_kubernetes_agent.Executor.Gate.Authorized.{
  IsAuthorized, ensure_effective_policy_allows-IsAuthorized, return_error_ends,
}
use hub_kubernetes_agent.Executor.Scale.{is_negative, scale_checked, scale_workload}
use hub_kubernetes_agent.Executor.Scale.Preview.{scale_checked-IsQuiet}

pub record IsScaleAllowed (cluster : Cluster) (cfg : Config) (spec : ScaleSpec) (h : History)
    : Type 0 where
  pub live : is_preview spec.execution.mode ≡ false
  pub authorized :
      IsAuthorized cluster cfg spec.target.namespace "scale" (some spec.target.kind) none h
  pub counted : is_negative spec.replicas ≡ false
  pub deployment : spec.target.kind ≡ "Deployment"

not-false : (b : Bool) → not b ≡ false → b ≡ true
not-false true h = refl
not-false false h = cc

not_preview :
    (cluster : Cluster) (cfg : Config) (command_id : String) (spec : ScaleSpec) (h : History)
    → IsQuiet h
    → ¬ IsQuiet (scale_checked cluster cfg command_id spec h).1
    → is_preview spec.execution.mode ≡ false
not_preview cluster cfg command_id spec h quiet lost =
    elim (Bool-cases (is_preview spec.execution.mode)) [
      | inl p ↦ absurd (lost ((scale_checked-IsQuiet cluster cfg command_id spec p).at h quiet))
      | inr n ↦ n
    ]

-- A scale command that was handled after reads and dry runs alone has changed the cluster only if
-- it is no preview, a policy that was then listed admits it, the count is not negative, and the
-- target is a Deployment.
pub scale_workload-IsScaleAllowed :
    (cluster : Cluster) (cfg : Config) (command_id : String) (spec : ScaleSpec) (h : History)
    → IsQuiet h
    → ¬ IsQuiet (scale_workload cluster cfg command_id spec h).1
    → IsScaleAllowed cluster cfg spec h
unfolding scale_workload
scale_workload-IsScaleAllowed cluster cfg command_id spec h quiet changed =
    let (e, passed, quiet', lost) =
      or_else_escape IsQuiet
        (ensure_effective_policy_allows cluster cfg spec.target.namespace "scale"
          (some spec.target.kind) none)
        (return_error cluster cfg command_id spec.execution.mode) _ h
        (ensure_effective_policy_allows-IsQuiet cluster cfg spec.target.namespace "scale"
          (some spec.target.kind) none)
        (return_error-Keeps cluster cfg command_id spec.execution.mode)
        (return_error_ends cluster cfg command_id spec.execution.mode) quiet changed in
    let h' =
      (ensure_effective_policy_allows cluster cfg spec.target.namespace "scale"
        (some spec.target.kind) none h).1 in
    let (counted, lost₂) =
      if_escape IsQuiet (is_negative spec.replicas) _ _ h'
        (return_error-Keeps cluster cfg command_id spec.execution.mode _) quiet' lost in
    let (kind, lost₃) =
      if_escape IsQuiet (not (spec.target.kind == "Deployment")) _ _ h'
        (return_error-Keeps cluster cfg command_id spec.execution.mode _) quiet' lost₂ in
    record {
      live = not_preview cluster cfg command_id spec h' quiet' lost₃;
      authorized =
          ensure_effective_policy_allows-IsAuthorized cluster cfg spec.target.namespace "scale"
            (some spec.target.kind) none h e passed;
      counted = counted;
      deployment = (eq_iff spec.target.kind "Deployment").0 (not-false _ kind);
    }
