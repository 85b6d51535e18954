-- ===== src/Executor/Policy/Allowed.antt =====
-- executor.rs: when a policy allows a command.
use hub_kubernetes_agent.Prelude.{
  ◌≡◌, refl, String, Option, none, some, List, [], ◌∷◌, true, false, arith, all, is_empty, contains,
}
use hub_kubernetes_agent.Model.Policy.{
  ActionPolicy, policy_action_is_supported, policy_action_targets_workload,
  policy_resource_is_supported,
}
use hub_kubernetes_agent.Model.Command.{WorkloadResourcesSpec}
use hub_kubernetes_agent.Executor.Limits.{policy_limits_violation_reason}
use hub_kubernetes_agent.Executor.Policy.{
  policy_rejection_reason_for_command, resource_rejection, limits_rejection, sets_resources,
}

-- What a command that sets resources needs.
pub record FitsLimits (policy : ActionPolicy) (spec : Option WorkloadResourcesSpec) : Type 0 where
  pub given :
      (s : WorkloadResourcesSpec) × (spec ≡ some s)
      × (policy_limits_violation_reason policy.spec.limits s ≡ none)

-- What a command that targets a workload needs.
pub record FitsResources (policy : ActionPolicy) (target : Option String) : Type 0 where
  pub supported :
      all (λ resource. policy_resource_is_supported resource) policy.spec.allowed_resources ≡ true
  pub given :
      (kind : String) × (target ≡ some kind) × (contains policy.spec.allowed_resources kind ≡ true)

-- The policy allows the command.
pub record Allows (policy : ActionPolicy) (kind : String) (target : Option String)
    (spec : Option WorkloadResourcesSpec) : Type 0 where
  pub supported :
      all (λ action. policy_action_is_supported action) policy.spec.allowed_actions ≡ true
  pub declared : contains policy.spec.allowed_actions kind ≡ true
  pub resources : policy_action_targets_workload kind ≡ true → FitsResources policy target
  pub limits : sets_resources kind ≡ true → FitsLimits policy spec

resource_rejection-none :
    (policy : ActionPolicy) (target : Option String)
    → resource_rejection policy target ≡ none
    → FitsResources policy target
unfolding resource_rejection
resource_rejection-none policy none h = cc
resource_rejection-none policy (some kind) h = record {
  supported = ground arith;
  given = (kind, refl, ground arith);
}

limits_rejection-none :
    (policy : ActionPolicy) (spec : Option WorkloadResourcesSpec)
    → limits_rejection policy spec ≡ none
    → FitsLimits policy spec
unfolding limits_rejection
limits_rejection-none policy none h = cc
limits_rejection-none policy (some s) h = record { given = (s, refl, h) }

-- Where no reason is found to reject it, the policy allows the command.
pub rejection_none-Allows :
    (policy : ActionPolicy) (kind : String) (target : Option String)
    (spec : Option WorkloadResourcesSpec)
    → policy_rejection_reason_for_command policy kind target spec ≡ none
    → Allows policy kind target spec
unfolding policy_rejection_reason_for_command
rejection_none-Allows policy kind target spec h = record {
  supported = ground arith;
  declared = ground arith;
  resources = λ t. resource_rejection-none policy target (ground arith);
  limits = λ t. limits_rejection-none policy spec (ground arith);
}

not_empty : (xs : List String) (x : String) → contains xs x ≡ true → is_empty xs ≡ false
not_empty [] x h = cc
not_empty (y ∷ ys) x h = refl

FitsResources-rejection :
    (policy : ActionPolicy) (target : Option String)
    → FitsResources policy target
    → resource_rejection policy target ≡ none
unfolding resource_rejection
FitsResources-rejection policy target f =
    let (kind, e, k) = f.given in
    rw e (ground (arith, f.supported, not_empty policy.spec.allowed_resources kind k))

FitsLimits-rejection :
    (policy : ActionPolicy) (spec : Option WorkloadResourcesSpec)
    → FitsLimits policy spec
    → limits_rejection policy spec ≡ none
unfolding limits_rejection
FitsLimits-rejection policy spec f = let (s, e, k) = f.given in rw e k

-- The converse.
pub Allows-rejection_none :
    (policy : ActionPolicy) (kind : String) (target : Option String)
    (spec : Option WorkloadResourcesSpec)
    → Allows policy kind target spec
    → policy_rejection_reason_for_command policy kind target spec ≡ none
unfolding policy_rejection_reason_for_command
Allows-rejection_none policy kind target spec a = ground (
  arith,
  FitsResources-rejection policy target,
  FitsLimits-rejection policy spec,
  a.resources,
  a.limits,
  not_empty policy.spec.allowed_actions kind,
)
