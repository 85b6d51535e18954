-- ===== src/Admission.antt =====
-- What the executor's admission of a command rests on, across operator.rs and executor.rs: the
-- operator writes the statuses of the policies, and the executor reads them some time later.
use hub_kubernetes_agent.Prelude.{
  ℕ, ◌-◌, ◌≤◌, ◌≡◌, ◌==◌, eq_iff, sym, refl, subst, String, Option, some, List, Memᴰ, Bool, true,
  false, ◌||◌, ◌&&◌, ok, contains, inl, inr, ◌⊎◌,
}
use hub_kubernetes_agent.Model.Objects.{Namespace}
use hub_kubernetes_agent.Model.Policy.{ActionPolicy, PolicyStatus}
use hub_kubernetes_agent.Model.Command.{WorkloadResourcesSpec}
use hub_kubernetes_agent.Operator.Namespaces.Effective.{Eligible, effective_namespaces-Eligible}
use hub_kubernetes_agent.Operator.Status.{BindingReconcileOutcome, build_policy_status}
use hub_kubernetes_agent.Operator.Status.Ready.{IsServed, build_policy_status-IsServed}
use hub_kubernetes_agent.Executor.Policy.{
  EffectivePolicy, namespace_is_effective_for_command, select_effective_policy,
  update_agent_namespace,
}
use hub_kubernetes_agent.Executor.Policy.Sound.{Admits, select_effective_policy-Admits}

-- A round of the operator: what it read, and when.
pub record Round : Type 0 where
  pub policy : ActionPolicy
  pub namespaces : List Namespace
  pub excluded : List String
  pub outcome : BindingReconcileOutcome
  pub at : ℕ

abbrev pub written_status : ℕ → Round → PolicyStatus
written_status stale_after r =
    build_policy_status r.policy r.namespaces r.excluded r.outcome r.at stale_after

-- The status that is found on the policy, if any, was written by a round. That round may have read
-- an earlier version of the policy.
abbrev pub IsWritten : ℕ → ActionPolicy → Type 0
IsWritten stale_after policy =
    (status : PolicyStatus)
    → policy.status ≡ some status
    → (r : Round) × (status ≡ written_status stale_after r)

-- What was so in the round that an admission rests on.
pub record IsBacked (namespace kind : String) (now stale_after : ℕ) (r : Round) : Type 0 where
  pub recent : now - r.at ≤ stale_after
  pub served : IsServed r.policy r.namespaces r.excluded r.outcome r.at stale_after
  pub place :
      Eligible r.namespaces r.excluded namespace
      ⊎ ((kind ≡ "update_agent") × (namespace ≡ update_agent_namespace))

pub some_same : {A : Type 0} (a b : A) → some a ≡ some b → a ≡ b
some_same a b h = cc

either-place :
    {P Q : Type 0} (a b c : Bool)
    → (b ≡ true → P)
    → (c ≡ true → Q)
    → (a || b && c) ≡ true
    → (a ≡ true) ⊎ (P × Q)
either-place true b c p q h = inl refl
either-place false true true p q h = inr (p refl, q refl)
either-place false true false p q h = cc
either-place false false c p q h = cc

effective-place :
    (namespace kind : String) (names : List String)
    → namespace_is_effective_for_command namespace kind names ≡ true
    → (contains names namespace ≡ true)
      ⊎ ((kind ≡ "update_agent") × (namespace ≡ update_agent_namespace))
unfolding namespace_is_effective_for_command
effective-place namespace kind names h =
    either-place (contains names namespace) (kind == "update_agent")
      (namespace == update_agent_namespace) (eq_iff kind "update_agent").0
      (eq_iff namespace update_agent_namespace).0 h

Admits-IsBacked :
    (namespace kind : String) (target : Option String) (spec : Option WorkloadResourcesSpec)
    (now stale_after : ℕ) (policy : ActionPolicy) (r : Round)
    → Admits namespace kind target spec now stale_after policy (written_status stale_after r)
    → IsBacked namespace kind now stale_after r
unfolding build_policy_status
Admits-IsBacked namespace kind target spec now stale_after policy r a =
    let (last, timed, recent) = a.fresh.recent in
    record {
      recent = subst (λ t. now - t ≤ stale_after) (sym (some_same r.at last timed)) recent;
      served =
          (build_policy_status-IsServed r.policy r.namespaces r.excluded r.outcome r.at
              stale_after).0
            a.fresh.ready;
      place = elim (effective-place namespace kind _ a.effective) [
        | inl listed ↦
            inl ((effective_namespaces-Eligible r.namespaces r.excluded namespace).0 listed)
        | inr agent ↦ inr agent
      ];
    }

-- If the operator wrote every status that is found on the listed policies, then a command that is
-- admitted at a namespace rests on a round of the operator that is no older than the freshness
-- window, in which the policy was served, and in which the namespace was listed, labelled for
-- action mode and not excluded; or the command is update_agent at the agent's own namespace.
pub select_effective_policy-IsBacked :
    (namespace kind : String) (target : Option String) (spec : Option WorkloadResourcesSpec)
    (now stale_after : ℕ) (policies : List ActionPolicy) (e : EffectivePolicy)
    → ((policy : ActionPolicy) → Memᴰ policy policies → IsWritten stale_after policy)
    → select_effective_policy namespace kind target spec now stale_after policies ≡ ok e
    → (r : Round) × (e.status ≡ written_status stale_after r)
      × IsBacked namespace kind now stale_after r
select_effective_policy-IsBacked namespace kind target spec now stale_after policies e written h =
    let (listed, named, admits) =
      select_effective_policy-Admits namespace kind target spec now stale_after policies e h in
    let (r, same) = written e.policy listed e.status admits.fresh.of_policy in
    (
      r,
      same,
      Admits-IsBacked namespace kind target spec now stale_after e.policy r
          (subst (λ s. Admits namespace kind target spec now stale_after e.policy s) same admits),
    )
