-- ===== src/Operator/Status/Ready.antt =====
-- operator.rs: what a Ready condition that the operator writes stands for.
use hub_kubernetes_agent.Prelude.{
  ℕ, ◌-◌, ◌≤◌, ◌≡◌, ◌↔◌, ◌∙◌, sym, refl, String, none, some, List, Bool, true, false, arith,
  is_empty, and_then, eq_ignore_ascii_case,
}
use hub_kubernetes_agent.Model.Objects.{Namespace}
use hub_kubernetes_agent.Model.Policy.{ActionPolicy, PolicyStatus, policy_status_is_stale}
use hub_kubernetes_agent.Model.Quantity.{policy_limits_are_valid}
use hub_kubernetes_agent.Operator.Namespaces.{effective_namespaces}
use hub_kubernetes_agent.Operator.Status.{
  BindingReconcileOutcome, PolicyFacts, is_ready, build_policy_conditions, policy_facts,
  build_policy_status, action_allowed, resource_allowed,
}
use hub_kubernetes_agent.Executor.Policy.{condition_true}

-- The executor's test of Ready reads the very bit that the operator computed.
condition_true-build_policy_conditions :
    (policy : ActionPolicy) (f : PolicyFacts) (ready : Bool) (now : ℕ)
    → condition_true (build_policy_conditions policy f ready now) "Ready" ≡ ready
unfolding condition_true build_policy_conditions eq_ignore_ascii_case
condition_true-build_policy_conditions policy f true now = refl
condition_true-build_policy_conditions policy f false now = refl

-- What has to hold for a policy to be served.
pub record IsServed (policy : ActionPolicy) (namespaces : List Namespace) (excluded : List String)
    (outcome : BindingReconcileOutcome) (now stale_after : ℕ) : Type 0 where
  pub eligible : is_empty (effective_namespaces namespaces excluded) ≡ false
  pub granted : outcome.permission_granted ≡ true
  pub actions : action_allowed policy ≡ true
  pub resources : resource_allowed policy ≡ true
  pub limits : policy_limits_are_valid policy.spec.limits ≡ true
  pub fresh :
      policy_status_is_stale
        (and_then policy.status (λ status. status.last_reconciled_at_ms))
        now
        stale_after
      ≡ false
  pub no_error : outcome.reconciliation_error ≡ none

module _ (policy : ActionPolicy) (namespaces : List Namespace) (excluded : List String)
    (outcome : BindingReconcileOutcome) (now stale_after : ℕ) where
  facts-IsServed :
      is_ready (policy_facts policy namespaces excluded outcome now stale_after) ≡ true
      → IsServed policy namespaces excluded outcome now stale_after
  unfolding is_ready policy_facts
  facts-IsServed h = ground arith

  IsServed-facts :
      IsServed policy namespaces excluded outcome now stale_after
      → is_ready (policy_facts policy namespaces excluded outcome now stale_after) ≡ true
  unfolding is_ready policy_facts
  IsServed-facts s = ground arith

-- The status that the operator writes says Ready, as the executor reads it, exactly when at least
-- one namespace is eligible, the role bindings were reconciled, with no error, the declared actions
-- and resources are supported, the declared limits are quantities, and the status that the policy
-- had before was fresh.
pub build_policy_status-IsServed :
    (policy : ActionPolicy) (namespaces : List Namespace) (excluded : List String)
    (outcome : BindingReconcileOutcome) (now stale_after : ℕ)
    → (condition_true
          (build_policy_status policy namespaces excluded outcome now stale_after).conditions
          "Ready"
        ≡ true)
      ↔ IsServed policy namespaces excluded outcome now stale_after
unfolding build_policy_status
build_policy_status-IsServed policy namespaces excluded outcome now stale_after =
    let facts = policy_facts policy namespaces excluded outcome now stale_after in
    let same = condition_true-build_policy_conditions policy facts (is_ready facts) now in
    (
      λ h. facts-IsServed policy namespaces excluded outcome now stale_after (sym same ∙ h),
      λ s. same ∙ IsServed-facts policy namespaces excluded outcome now stale_after s,
    )

-- A status that says Ready is never marked stale.
pub Ready-not_stale :
    (policy : ActionPolicy) (namespaces : List Namespace) (excluded : List String)
    (outcome : BindingReconcileOutcome) (now stale_after : ℕ)
    → IsServed policy namespaces excluded outcome now stale_after
    → (build_policy_status policy namespaces excluded outcome now stale_after).stale ≡ false
unfolding build_policy_status policy_facts
Ready-not_stale policy namespaces excluded outcome now stale_after s = s.fresh

-- The policy as the next round finds it: with the status of the round before.
abbrev pub with_status : ActionPolicy → PolicyStatus → ActionPolicy
with_status policy status = record policy { status = some status }

still_fresh :
    (now later stale_after : ℕ)
    → later - now ≤ stale_after
    → policy_status_is_stale (some now) later stale_after ≡ false
unfolding policy_status_is_stale
still_fresh now later stale_after h = ground arith

-- Whatever a policy's status was, missing or old, the round after a round is fresh if no more than
-- the window has passed: then the policy is Ready as soon as the rest of what it takes holds.
pub second_round-Ready :
    (policy : ActionPolicy) (before namespaces : List Namespace) (excluded : List String)
    (first outcome : BindingReconcileOutcome) (now later stale_after : ℕ)
    → later - now ≤ stale_after
    → is_empty (effective_namespaces namespaces excluded) ≡ false
    → outcome.permission_granted ≡ true
    → outcome.reconciliation_error ≡ none
    → action_allowed policy ≡ true
    → resource_allowed policy ≡ true
    → policy_limits_are_valid policy.spec.limits ≡ true
    → let written = build_policy_status policy before excluded first now stale_after in
      condition_true
        (build_policy_status
          (with_status policy written)
          namespaces
          excluded
          outcome
          later
          stale_after).conditions
        "Ready"
      ≡ true
second_round-Ready policy before namespaces excluded first outcome now later stale_after recent
      eligible granted no_error actions resources limits =
    (build_policy_status-IsServed
        (with_status policy (build_policy_status policy before excluded first now stale_after))
        namespaces excluded outcome later stale_after).1
      (record {
        eligible = eligible;
        granted = granted;
        actions = unfold action_allowed in actions;
        resources = unfold resource_allowed in resources;
        limits = limits;
        fresh = unfold build_policy_status in still_fresh now later stale_after recent;
        no_error = no_error;
      })
