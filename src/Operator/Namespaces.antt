-- ===== src/Operator/Namespaces.antt =====
-- operator.rs: which namespaces the operator serves. A `HashSet<String>` is the list of its texts.
pub mod Covered
pub mod Effective
use text.Mathlib.Text.{starts_with}
use hub_kubernetes_agent.Prelude.{
  String, none, some, List, [], ◌∷◌, ◌++◌, map, Bool, false, not, ◌&&◌, ◌==◌, if◌then◌else◌, any,
  filter, sort, lookup, and_then, is_text, trim, strip_suffix_char,
}
use hub_kubernetes_agent.Model.Objects.{Namespace}

-- executor.rs: ACTION_MODE_NAMESPACE_LABEL and ACTION_MODE_NAMESPACE_LABEL_ENABLED
abbrev pub action_mode_namespace_label : String
action_mode_namespace_label = "sentinella.io/action-mode"

abbrev pub action_mode_namespace_label_enabled : String
action_mode_namespace_label_enabled = "true"

abbrev pub system_excluded_namespaces : List String
system_excluded_namespaces =
    "kube-system" ∷ "kube-public" ∷ "kube-node-lease" ∷ "sentinella" ∷ "tetragon" ∷ "openshift-*"
    ∷ []

unfoldable pub combined_excluded_namespaces : List String → List String
unfolding trim
combined_excluded_namespaces extra =
    filter (λ value. not (value == "")) (system_excluded_namespaces ++ map trim extra)

unfoldable pub namespace_matches_pattern : String → String → Bool
unfolding strip_suffix_char
namespace_matches_pattern name pattern' = elim (strip_suffix_char b'*' pattern') [
  | some prefix ↦ if prefix == "" then false else starts_with name prefix
  | none ↦ name == pattern'
]

unfoldable pub namespace_is_excluded : String → List String → Bool
unfolding namespace_matches_pattern
namespace_is_excluded name excluded =
    any (λ pattern'. namespace_matches_pattern name pattern') excluded

unfoldable pub namespace_action_mode_enabled : Namespace → Bool
namespace_action_mode_enabled namespace =
    is_text
      (and_then namespace.metadata.labels (λ labels. lookup action_mode_namespace_label labels))
      action_mode_namespace_label_enabled

-- A namespace that is served: not excluded, and labelled for action mode.
unfoldable pub is_eligible : List String → String → Namespace → Bool
is_eligible excluded name namespace =
    not (namespace_is_excluded name excluded) && namespace_action_mode_enabled namespace

-- The loop of `effective_namespaces`; a namespace with no name is passed over.
unfoldable pub eligible_names : List String → List Namespace → List String
eligible_names excluded [] = []
eligible_names excluded (namespace ∷ rest) =
    let names = eligible_names excluded rest in
    elim namespace.metadata.name [
      | none ↦ names
      | some name ↦ if is_eligible excluded name namespace then name ∷ names else names
    ]

unfoldable pub effective_namespaces : List Namespace → List String → List String
unfolding eligible_names sort
effective_namespaces namespaces excluded = sort (eligible_names excluded namespaces)
