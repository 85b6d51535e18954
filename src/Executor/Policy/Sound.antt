-- ===== src/Executor/Policy/Sound.antt =====
-- executor.rs: what a command that was admitted, or refused, by the policies can rely on.
use hub_kubernetes_agent.Executor.Policy.Loop.{select-IsSelected, select-accepted}
use hub_kubernetes_agent.Executor.Policy.Allowed.{
  Allows, rejection_none-Allows, Allows-rejection_none,
}
use hub_kubernetes_agent.Prelude.{
  ℕ, ◌-◌, ◌≤◌, ◌≡◌, ◌∙◌, ap, sym, String, Option, none, some, List, [], Memᴰ, Bool, true, false,
  not, Option-cases, Bool-cases, ok, subst, arith, ◌<>◌, if◌then◌else◌, inl, inr,
}
use hub_kubernetes_agent.Model.Policy.{
  ActionPolicy, PolicyStatus, policy_action_targets_workload, policy_status_is_stale,
}
use hub_kubernetes_agent.Model.Command.{WorkloadResourcesSpec}
use hub_kubernetes_agent.Executor.Policy.{
  EffectivePolicy, Verdict, reject, accept, condition_true, namespace_is_effective_for_command,
  check_fresh, judge, judge_cluster, select_effective_policy, select_cluster_action_policy, name_of,
}

-- The status is the policy's, it is fresh, and it says Ready.
pub record IsFresh (policy : ActionPolicy) (status : PolicyStatus) (now stale_after : ℕ)
    : Type 0 where
  pub of_policy : policy.status ≡ some status
  pub recent : (last : ℕ) × (status.last_reconciled_at_ms ≡ some last) × (now - last ≤ stale_after)
  pub ready : condition_true status.conditions "Ready" ≡ true

gates_passed :
    (stale ready : Bool) (m n : String) (v : Verdict) (status : PolicyStatus)
    → (if stale then reject m else if not ready then reject n else v) ≡ accept status
    → (stale ≡ false) × (ready ≡ true) × (v ≡ accept status)
gates_passed stale ready m n v status h = (ground arith, ground arith, ground arith)

not_stale :
    (last now stale_after : ℕ)
    → policy_status_is_stale (some last) now stale_after ≡ false
    → now - last ≤ stale_after
unfolding policy_status_is_stale
not_stale last now stale_after h = ground arith

recent-not_stale :
    (last now stale_after : ℕ)
    → now - last ≤ stale_after
    → policy_status_is_stale (some last) now stale_after ≡ false
unfolding policy_status_is_stale
recent-not_stale last now stale_after h = ground arith

check_fresh-accept :
    (now stale_after : ℕ) (next : String → PolicyStatus → Verdict) (policy : ActionPolicy)
    (status : PolicyStatus)
    → ((name : String) (s t : PolicyStatus) → next name s ≡ accept t → s ≡ t)
    → check_fresh now stale_after next policy ≡ accept status
    → (name : String) × (policy.metadata.name ≡ some name)
      × IsFresh policy status now stale_after
      × (next name status ≡ accept status)
unfolding check_fresh
check_fresh-accept now stale_after next policy status keeps h =
    elim (Option-cases policy.metadata.name) [
      | inl a ↦ cc (rw (a, check_fresh) at h)
      | inr (name, a) ↦ elim (Option-cases policy.status) [
        | inl b ↦ cc (rw (a, b, check_fresh) at h)
        | inr (s, b) ↦ elim (Option-cases s.last_reconciled_at_ms) [
          | inl c ↦ cc (rw (a, b, c, check_fresh) at h)
          | inr (last, c) ↦
              let (fresh, ready, rest) =
                gates_passed (policy_status_is_stale (some last) now stale_after)
                  (condition_true s.conditions "Ready") ("policy " <> name <> " status is stale")
                  ("policy " <> name <> " is not Ready") (next name s) status
                  (rw (a, b, c, check_fresh) at h) in
              let same = keeps name s status rest in
              let of_status : IsFresh policy s now stale_after = record {
                of_policy = b;
                recent = (last, c, not_stale last now stale_after fresh);
                ready = ready;
              } in
              (
                name,
                a,
                subst (λ t. IsFresh policy t now stale_after) same of_status,
                subst (λ t. next name t ≡ accept status) same rest,
              )
        ]
      ]
    ]

-- A policy that admits a command at a namespace.
pub record Admits (namespace kind : String) (target : Option String)
    (spec : Option WorkloadResourcesSpec) (now stale_after : ℕ) (policy : ActionPolicy)
    (status : PolicyStatus) : Type 0 where
  pub named : (name : String) × (policy.metadata.name ≡ some name)
  pub fresh : IsFresh policy status now stale_after
  pub effective :
      namespace_is_effective_for_command namespace kind status.effective_namespaces ≡ true
  pub allows : Allows policy kind target spec

module _ (namespace kind : String) (target : Option String) (spec : Option WorkloadResourcesSpec)
    (now stale_after : ℕ) where
  judge-Admits :
      (policy : ActionPolicy) (status : PolicyStatus)
      → judge namespace kind target spec now stale_after policy ≡ accept status
      → Admits namespace kind target spec now stale_after policy status
  unfolding judge
  judge-Admits policy status h =
      let (name, named, fresh, next) =
        check_fresh-accept now stale_after _ policy status (λ n s t k. ground arith) h in
      record {
        named = (name, named);
        fresh = fresh;
        effective = ground arith;
        allows = rejection_none-Allows policy kind target spec (ground arith);
      }

  Admits-judge :
      (policy : ActionPolicy) (status : PolicyStatus)
      → Admits namespace kind target spec now stale_after policy status
      → judge namespace kind target spec now stale_after policy ≡ accept status
  unfolding judge check_fresh
  Admits-judge policy status a =
      let (name, named) = a.named in
      let (last, timed, recent) = a.fresh.recent in
      let fresh : policy_status_is_stale (some last) now stale_after ≡ false =
        recent-not_stale last now stale_after recent in
      let allowed = Allows-rejection_none policy kind target spec a.allows in
      rw
        (
          named, a.fresh.of_policy, timed, fresh, a.fresh.ready, a.effective, allowed, judge,
          check_fresh,
        )
        (rw (← timed))

name_of-some :
    (policy : ActionPolicy) (name : String)
    → policy.metadata.name ≡ some name
    → name_of policy ≡ name
unfolding name_of
name_of-some policy name h = rw (h, name_of)

Allows-not_workload :
    (policy : ActionPolicy) (kind : String) (spec : Option WorkloadResourcesSpec)
    → Allows policy kind none spec
    → policy_action_targets_workload kind ≡ false
Allows-not_workload policy kind spec a = elim (Bool-cases (policy_action_targets_workload kind)) [
  | inl t ↦ let (target, none_some, _) = (a.resources t).given in cc none_some
  | inr f ↦ f
]

-- If a command is admitted at a namespace, the policy it is admitted by is listed, under its name,
-- with its own status; that status is no older than the freshness window and says Ready; it lists
-- the namespace, or the command is update_agent at the agent's own namespace; and the policy
-- declares only supported actions, the command among them, with the target kind among supported
-- resources if the command targets a workload, and with no limit violated if it sets resources.
pub select_effective_policy-Admits :
    (namespace kind : String) (target : Option String) (spec : Option WorkloadResourcesSpec)
    (now stale_after : ℕ) (policies : List ActionPolicy) (e : EffectivePolicy)
    → select_effective_policy namespace kind target spec now stale_after policies ≡ ok e
    → Memᴰ e.policy policies
      × (e.policy.metadata.name ≡ some e.name)
      × Admits namespace kind target spec now stale_after e.policy e.status
unfolding select_effective_policy name_of
select_effective_policy-Admits namespace kind target spec now stale_after policies e h =
    let selected = select-IsSelected _ _ [] policies e h in
    let admits =
      judge-Admits namespace kind target spec now stale_after e.policy e.status selected.accepted in
    let (name, named) = admits.named in
    (
      selected.listed,
      named ∙ ap some (sym (selected.named ∙ name_of-some e.policy name named)),
      admits,
    )

-- A command is admitted if any listed policy with a name admits it, wherever it stands in the list
-- and whatever the others say.
pub Admits-select_effective_policy :
    (namespace kind : String) (target : Option String) (spec : Option WorkloadResourcesSpec)
    (now stale_after : ℕ) (policies : List ActionPolicy) (policy : ActionPolicy)
    (status : PolicyStatus)
    → Memᴰ policy policies
    → Admits namespace kind target spec now stale_after policy status
    → (e : EffectivePolicy) × (select_effective_policy namespace kind target spec now stale_after
          policies
        ≡ ok e)
unfolding select_effective_policy
Admits-select_effective_policy namespace kind target spec now stale_after policies policy status m
      a =
    select-accepted _ _ [] policies policy status m
      (Admits-judge namespace kind target spec now stale_after policy status a)

-- A command that is admitted at the cluster is admitted by a listed policy with a fresh status that
-- says Ready and with rules that allow the command without a target and without resources; and its
-- action is none that targets a workload.
pub select_cluster_action_policy-Allows :
    (policies : List ActionPolicy) (kind : String) (now stale_after : ℕ) (e : EffectivePolicy)
    → select_cluster_action_policy policies kind now stale_after ≡ ok e
    → Memᴰ e.policy policies
      × IsFresh e.policy e.status now stale_after
      × Allows e.policy kind none none
      × (policy_action_targets_workload kind ≡ false)
unfolding select_cluster_action_policy judge_cluster
select_cluster_action_policy-Allows policies kind now stale_after e h =
    let selected = select-IsSelected _ _ [] policies e h in
    let (name, named, fresh, next) =
      check_fresh-accept now stale_after _ e.policy e.status (λ n s t k. ground arith)
        selected.accepted in
    let allows = rejection_none-Allows e.policy kind none none (ground arith) in
    (selected.listed, fresh, allows, Allows-not_workload e.policy kind none allows)
