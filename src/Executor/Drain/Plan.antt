-- ===== src/Executor/Drain/Plan.antt =====
-- executor.rs: what a drain is going to do, before it does it: its options, and the sorting of the
-- node's pods.
use hub_kubernetes_agent.Prelude.{
  ℕ, ◌^◌, String, Option, none, some, List, [], ◌∷◌, map, Bool, not, if◌then◌else◌, ◌<>◌, is_some,
  is_empty, is_text, and_then, unwrap_or, contains, lookup, ltb, nat_eq, Result, ok, err,
}
use hub_kubernetes_agent.Model.Objects.{Pod}
use hub_kubernetes_agent.Model.Command.{DrainNodeSpec}

abbrev pub drain_node_default_timeout_seconds : ℕ
drain_node_default_timeout_seconds = 300

abbrev pub drain_node_max_timeout_seconds : ℕ
drain_node_max_timeout_seconds = 3600

-- In seconds.
unfoldable pub drain_timeout_duration : DrainNodeSpec → Result String ℕ
drain_timeout_duration spec =
    let timeout_seconds = unwrap_or spec.timeout_seconds drain_node_default_timeout_seconds in
    if nat_eq timeout_seconds 0
    then err "timeout_seconds must be greater than 0"
    else if ltb drain_node_max_timeout_seconds timeout_seconds
    then err "timeout_seconds must be less than or equal to 3600"
    else ok timeout_seconds

-- The grace period of the eviction's delete options; the source's `i64::try_from` fails above 2^63 - 1.
grace_of : ℕ → Result String (Option ℕ)
grace_of seconds =
    if nat_eq seconds 0
    then err "grace_period_seconds must be greater than 0"
    else if ltb seconds (2 ^ 63)
    then ok (some seconds)
    else err "grace_period_seconds is too large"

unfoldable pub drain_delete_options : DrainNodeSpec → Result String (Option ℕ)
unfolding grace_of
drain_delete_options spec = elim spec.grace_period_seconds [
  | none ↦ ok none
  | some seconds ↦ grace_of seconds
]

unfoldable pub pod_is_mirror : Pod → Bool
pod_is_mirror pod =
    is_some (and_then pod.metadata.annotations (λ a. lookup "kubernetes.io/config.mirror" a))

unfoldable pub pod_owner_kinds : Pod → List String
pod_owner_kinds pod = elim pod.metadata.owner_references [
  | none ↦ []
  | some refs ↦ map (λ owner. owner.kind) refs
]

pub record Classified : Type 0 where
  pub ignored : List String
  pub unmanaged : List String
  pub drainable : List (String × String)

abbrev pub namespace_of : Pod → String
namespace_of pod = unwrap_or pod.metadata.namespace ""

abbrev pub pod_name_of : Pod → String
pod_name_of pod = unwrap_or pod.metadata.name ""

abbrev pub display_name : Pod → String
display_name pod = namespace_of pod <> "/" <> pod_name_of pod

-- One round of the loop, in front of the later rounds.
unfoldable pub classify_pod : String → Bool → Pod → Classified → Classified
unfolding pod_is_mirror pod_owner_kinds
classify_pod node_name force pod rest =
    let kinds = pod_owner_kinds pod in
    let drainable = (namespace_of pod, pod_name_of pod) ∷ rest.drainable in
    if not (is_text pod.node_name node_name)
    then rest
    else if pod_is_mirror pod
    then record rest { ignored = ("ignored mirror pod " <> display_name pod) ∷ rest.ignored }
    else if contains kinds "DaemonSet"
    then record rest { ignored = ("ignored DaemonSet pod " <> display_name pod) ∷ rest.ignored }
    else if is_empty kinds
    then record rest {
      unmanaged = display_name pod ∷ rest.unmanaged;
      drainable = if force then drainable else rest.drainable;
    }
    else record rest { drainable = drainable }

unfoldable pub classify_pods_on_node : String → List Pod → Bool → Classified
unfolding classify_pod
classify_pods_on_node node_name [] force = record { ignored = []; unmanaged = []; drainable = [] }
classify_pods_on_node node_name (pod ∷ pods) force =
    classify_pod node_name force pod (classify_pods_on_node node_name pods force)
