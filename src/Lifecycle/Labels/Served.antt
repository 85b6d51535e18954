-- ===== src/Lifecycle/Labels/Served.antt =====
-- operator_lifecycle.rs: which namespaces the labels leave to the operator.
use hub_kubernetes_agent.Prelude.{
  ◌≡◌, refl, ap, ◌∙◌, ◌==◌, eq_iff, String, Option, none, some, List, [], ◌∷◌, true, false, not,
  ◌&&◌, is_text, and_then, unwrap_or, Bool-cases, inl, inr, filter,
}
use hub_kubernetes_agent.Model.Json.{Json, null, string, pointer}
use hub_kubernetes_agent.Model.Objects.{Namespace, Labels}
use hub_kubernetes_agent.Operator.Namespaces.{
  namespace_is_excluded, namespace_action_mode_enabled, is_eligible, action_mode_namespace_label,
}
use hub_kubernetes_agent.Lifecycle.Api.{Request, patch}
use hub_kubernetes_agent.Lifecycle.Labels.{
  namespace_action_mode_value, set_label, keep, label_change, label_patch, label_request,
  request_named, namespace_request,
}

-- A merge patch of a label: a text sets it, null removes it.
unfoldable patched_labels : Json → Option Labels → Option Labels
patched_labels (string value) labels =
    some ((action_mode_namespace_label, value) ∷ unwrap_or labels [])
patched_labels null labels =
    and_then labels (λ ls. some (filter (λ entry. not (entry.0 == action_mode_namespace_label)) ls))
patched_labels _ labels = labels

-- The namespace after a request of its own: what the API server documents of a merge patch, for
-- the label.
unfoldable pub applied : Option Request → Namespace → Namespace
unfolding patched_labels pointer
applied (some (patch scope kind name body)) namespace =
    elim (pointer ("metadata" ∷ "labels" ∷ action_mode_namespace_label ∷ []) body) [
      | none ↦ namespace
      | some value ↦ record namespace {
        metadata = record namespace.metadata {
          labels = patched_labels value namespace.metadata.labels;
        };
      }
    ]
applied _ namespace = namespace

false_apart : (value : Option String) → is_text value "true" ≡ true → is_text value "false" ≡ false
false_apart none h = cc
false_apart (some text) h = rw ((eq_iff text "true").0 h) refl

applied_set :
    (name : String) (namespace : Namespace)
    → namespace_action_mode_enabled (applied (label_request name set_label) namespace) ≡ true
unfolding applied label_request label_patch patched_labels namespace_action_mode_enabled pointer
applied_set name namespace = refl

applied_keep :
    (name : String) (namespace : Namespace)
    → applied (label_request name keep) namespace ≡ namespace
unfolding applied label_request
applied_keep name namespace = refl

enabled_value :
    (namespace : Namespace)
    → namespace_action_mode_enabled namespace
      ≡ is_text (namespace_action_mode_value namespace) "true"
unfolding namespace_action_mode_enabled namespace_action_mode_value
enabled_value namespace = refl

-- A namespace that is not excluded, by the change that its label takes.
relabelled :
    (name : String) (namespace : Namespace)
    → namespace_action_mode_enabled (
        applied
          (label_request name (label_change true false (namespace_action_mode_value namespace)))
          namespace)
      ≡ not (is_text (namespace_action_mode_value namespace) "false")
unfolding label_change
relabelled name namespace =
    let value = namespace_action_mode_value namespace in
    elim (Bool-cases (is_text value "true")) [
      | inl on ↦
          rw (on, applied_keep name namespace, false_apart value on) (enabled_value namespace ∙ on)
      | inr not_on ↦ elim (Bool-cases (is_text value "false")) [
        | inl opted_out ↦
            rw (not_on, opted_out, applied_keep name namespace) (enabled_value namespace ∙ not_on)
        | inr unset ↦ rw (not_on, unset) (applied_set name namespace)
      ]
    ]

-- Where actions are on, the request that a namespace takes leaves it to the operator exactly if it is
-- not excluded and does not carry the label with the value "false", by which it opts out.
pub namespace_request-is_eligible :
    (excluded : List String) (namespace : Namespace) (name : String)
    → namespace.metadata.name ≡ some name
    → is_eligible excluded name (applied (namespace_request true excluded namespace) namespace) ≡ (
        not (namespace_is_excluded name excluded)
        && not (is_text (namespace_action_mode_value namespace) "false"))
unfolding is_eligible namespace_request request_named
namespace_request-is_eligible excluded namespace name named =
    let value = namespace_action_mode_value namespace in
    let request : namespace_request true excluded namespace
        ≡ label_request name (label_change true (namespace_is_excluded name excluded) value) =
      ap (request_named true excluded value) named in
    ap (λ r. is_eligible excluded name (applied r namespace)) request
    ∙ elim (Bool-cases (namespace_is_excluded name excluded)) [
      | inl out ↦ rw out refl
      | inr served ↦ rw served (relabelled name namespace)
    ]
