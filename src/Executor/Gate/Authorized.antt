-- ===== src/Executor/Gate/Authorized.antt =====
-- executor.rs: what it takes to pass the policy check of a command.
use hub_kubernetes_agent.Prelude.{
  ◌≡◌, refl, String, Option, none, some, List, ◌∷◌, Memᴰ, ok, err, Result-cases, inl, inr,
}
use hub_kubernetes_agent.Exec.{continue}
use hub_kubernetes_agent.Model.Policy.{ActionPolicy, PolicyStatus}
use hub_kubernetes_agent.Model.Command.{ExecutionMode, WorkloadResourcesSpec}
use hub_kubernetes_agent.Model.Result.{simple}
use hub_kubernetes_agent.Executor.Policy.{EffectivePolicy}
use hub_kubernetes_agent.Executor.Policy.Allowed.{Allows}
use hub_kubernetes_agent.Executor.Policy.Sound.{
  Admits, IsFresh, select_effective_policy-Admits, select_cluster_action_policy-Allows,
}
use hub_kubernetes_agent.Executor.Api.{Cluster, History, Early, returned, list_policies}
use hub_kubernetes_agent.Executor.Gate.{
  Config, stale_after_ms, command_error, ensure_effective_policy_allows,
  ensure_cluster_action_allowed, return_error, return_simple_error,
}

-- At this history, the policies are listed with success, and one of them admits the command.
pub record IsAuthorized (cluster : Cluster) (cfg : Config) (namespace kind : String)
    (target : Option String) (spec : Option WorkloadResourcesSpec) (h : History) : Type 0 where
  pub policies : List ActionPolicy
  pub listed : cluster.policies h ≡ ok policies
  pub policy : ActionPolicy
  pub status : PolicyStatus
  pub member : Memᴰ policy policies
  pub admits :
      Admits namespace kind target spec
        (cluster.now_ms (list_policies ∷ h))
        (stale_after_ms cfg)
        policy
        status

-- The same for a command at the cluster.
pub record IsClusterAuthorized (cluster : Cluster) (cfg : Config) (kind : String) (h : History)
    : Type 0 where
  pub policies : List ActionPolicy
  pub listed : cluster.policies h ≡ ok policies
  pub policy : ActionPolicy
  pub status : PolicyStatus
  pub member : Memᴰ policy policies
  pub fresh : IsFresh policy status (cluster.now_ms (list_policies ∷ h)) (stale_after_ms cfg)
  pub allows : Allows policy kind none none

module _ (cluster : Cluster) (cfg : Config) where
  pub ensure_effective_policy_allows-IsAuthorized :
      (namespace kind : String) (target : Option String) (spec : Option WorkloadResourcesSpec)
      (h : History) (e : EffectivePolicy)
      → (ensure_effective_policy_allows cluster cfg namespace kind target spec h).0 ≡ ok e
      → IsAuthorized cluster cfg namespace kind target spec h
  unfolding ensure_effective_policy_allows
  ensure_effective_policy_allows-IsAuthorized namespace kind target spec h e passed =
      elim (Result-cases (cluster.policies h)) [
        | inl (policies, q) ↦
            let (member, named, admits) =
              select_effective_policy-Admits namespace kind target spec
                (cluster.now_ms (list_policies ∷ h)) (stale_after_ms cfg) policies e
                (rw (q, continue) at passed) in
            record {
              policies = policies;
              listed = q;
              policy = e.policy;
              status = e.status;
              member = member;
              admits = admits;
            }
        | inr (m, q) ↦ cc (rw (q, continue) at passed)
      ]

  pub ensure_cluster_action_allowed-IsAuthorized :
      (kind : String) (h : History) (e : EffectivePolicy)
      → (ensure_cluster_action_allowed cluster cfg kind h).0 ≡ ok e
      → IsClusterAuthorized cluster cfg kind h
  unfolding ensure_cluster_action_allowed
  ensure_cluster_action_allowed-IsAuthorized kind h e passed =
      elim (Result-cases (cluster.policies h)) [
        | inl (policies, q) ↦
            let (member, fresh, allows, other) =
              select_cluster_action_policy-Allows policies kind (cluster.now_ms (list_policies ∷ h))
                (stale_after_ms cfg) e (rw (q, continue) at passed) in
            record {
              policies = policies;
              listed = q;
              policy = e.policy;
              status = e.status;
              member = member;
              fresh = fresh;
              allows = allows;
            }
        | inr (m, q) ↦ cc (rw (q, continue) at passed)
      ]

  -- An early return ends the handler.
  pub return_error_ends :
      {A : Type 0} (command_id : String) (mode : ExecutionMode) (message : String) (h : History)
      → (r : Early) × ((return_error cluster cfg {A = A} command_id mode message h).0 ≡ err r)
  unfolding return_error
  return_error_ends command_id mode message h =
      (returned (command_error (cluster.now_ms h) command_id mode message), refl)

  pub return_simple_error_ends :
      {A : Type 0} (command_id message : String) (h : History)
      → (r : Early) × ((return_simple_error cluster cfg {A = A} command_id message h).0 ≡ err r)
  unfolding return_simple_error
  return_simple_error_ends command_id message h =
      (returned (simple (cluster.now_ms h) command_id "error" (some message)), refl)
