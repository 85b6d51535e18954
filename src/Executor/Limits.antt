-- ===== src/Executor/Limits.antt =====
-- executor.rs: a requested quantity against the limits of a policy.
use hub_kubernetes_agent.Prelude.{
  ◌^◌, ◌-◌, String, Option, none, some, List, [], ◌∷◌, ◌++◌, Bool, false, ℤ, pos, negsuc, leb_ℤ,
  not, if◌then◌else◌, ◌<>◌, is_empty, join, and_then, nat_eq,
}
use hub_kubernetes_agent.Model.Policy.{PolicyLimits}
use hub_kubernetes_agent.Model.Command.{WorkloadResourcesSpec}
use hub_kubernetes_agent.Model.Quantity.{parse_cpu_quantity, parse_memory_quantity}

abbrev i128_min : ℤ
i128_min = negsuc (2 ^ 127 - 1)

-- `parse(text).or(Some(i128::MIN))`
abbrev or_min : Option ℤ → ℤ
or_min none = i128_min
or_min (some v) = v

abbrev is_i128_min : ℤ → Bool
is_i128_min (pos n) = false
is_i128_min (negsuc n) = nat_eq n (2 ^ 127 - 1)

unfoldable pub quantity_exceeds_limit :
    String → String → String → (String → Option ℤ) → Option String
quantity_exceeds_limit label quantity limit parse =
    let quantity_value = or_min (parse quantity) in
    let limit_value = or_min (parse limit) in
    if is_i128_min quantity_value
    then some (label <> " " <> quantity <> " is not a valid quantity")
    else if is_i128_min limit_value
    then some ("policy limit " <> limit <> " is not a valid quantity")
    else if not (leb_ℤ quantity_value limit_value)
    then some (label <> " " <> quantity <> " exceeds max " <> limit)
    else none

-- The violation of one limit by one quantity, where both are given.
unfoldable pub violation :
    String → (String → Option ℤ) → Option String → Option String → List String
unfolding quantity_exceeds_limit
violation label parse none quantity = []
violation label parse (some limit) none = []
violation label parse (some limit) (some quantity) =
    elim (quantity_exceeds_limit label quantity limit parse) [
      | none ↦ []
      | some reason ↦ reason ∷ []
    ]

unfoldable pub violations : PolicyLimits → WorkloadResourcesSpec → List String
unfolding violation
violations limits spec =
    violation "cpu request" parse_cpu_quantity limits.max_cpu_limit
      (and_then spec.requests (λ m. m.cpu))
    ++ violation "cpu limit" parse_cpu_quantity limits.max_cpu_limit
        (and_then spec.limits (λ m. m.cpu))
    ++ violation "memory request" parse_memory_quantity limits.max_memory_limit
        (and_then spec.requests (λ m. m.memory))
    ++ violation "memory limit" parse_memory_quantity limits.max_memory_limit
        (and_then spec.limits (λ m. m.memory))

unfoldable pub policy_limits_violation_reason :
    Option PolicyLimits → WorkloadResourcesSpec → Option String
unfolding violations
policy_limits_violation_reason none spec = none
policy_limits_violation_reason (some limits) spec =
    if is_empty (violations limits spec)
    then none
    else some ("limits exceeded: " <> join ", " (violations limits spec))
