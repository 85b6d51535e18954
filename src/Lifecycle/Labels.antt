-- ===== src/Lifecycle/Labels.antt =====
-- operator_lifecycle.rs: the action mode label of the namespaces.
pub mod Served
pub mod Requested
use hub_kubernetes_agent.Prelude.{
  String, Option, none, some, List, [], ◌∷◌, Bool, true, false, not, ◌&&◌, if◌then◌else◌, and_then,
  lookup, is_some, is_text, Result,
}
use hub_kubernetes_agent.Exec.{Exec, pure, ◌>>=◌, ◌>>◌}
use hub_kubernetes_agent.Model.Json.{Json, null, string, obj}
use hub_kubernetes_agent.Model.Objects.{Namespace}
use hub_kubernetes_agent.Operator.Namespaces.{
  namespace_is_excluded, action_mode_namespace_label, action_mode_namespace_label_enabled,
}
use hub_kubernetes_agent.Lifecycle.Api.{Request, patch, list_namespaces, Requests, Server, ask}

unfoldable pub namespace_action_mode_value : Namespace → Option String
namespace_action_mode_value namespace =
    and_then namespace.metadata.labels (λ labels. lookup action_mode_namespace_label labels)

-- What a namespace needs: the label set, the label removed, or nothing.
pub data LabelChange : Type 0 where
  set_label remove_label keep : LabelChange

-- The tests of the loop's body.
unfoldable pub label_change : Bool → Bool → Option String → LabelChange
label_change enabled excluded value =
    if excluded
    then if not (is_text value "false") && is_some value then remove_label else keep
    else if enabled
    then if is_text value action_mode_namespace_label_enabled
      then keep
      else if is_text value "false"
      then keep
      else set_label
    else if is_text value action_mode_namespace_label_enabled
    then remove_label
    else keep

unfoldable pub label_patch : Json → Json
unfolding obj
label_patch value =
    obj (("metadata", obj (("labels", obj ((action_mode_namespace_label, value) ∷ [])) ∷ [])) ∷ [])

-- The request for a change.
unfoldable pub label_request : String → LabelChange → Option Request
label_request name set_label =
    some (patch none "Namespace" name (label_patch (string action_mode_namespace_label_enabled)))
label_request name remove_label = some (patch none "Namespace" name (label_patch null))
label_request name keep = none

-- From the name and the label; a namespace with no name is passed over.
unfoldable pub request_named : Bool → List String → Option String → Option String → Option Request
request_named enabled excluded value none = none
request_named enabled excluded value (some name) =
    label_request name (label_change enabled (namespace_is_excluded name excluded) value)

-- The request that a namespace takes, if any.
unfoldable pub namespace_request : Bool → List String → Namespace → Option Request
namespace_request enabled excluded namespace =
    request_named enabled excluded (namespace_action_mode_value namespace) namespace.metadata.name

module _ (server : Server) where
  -- `set_action_mode_label` and `remove_action_mode_label`, where there is a change. The error is the
  -- server's; the text that is put around it is left out.
  unfoldable pub change_label : Option Request → Exec Requests String (Unit {0})
  unfolding ask pure
  change_label none = pure tt
  change_label (some request) = ask request (server.done request)

  -- The loop: an error ends it.
  unfoldable pub change_labels :
      Bool → List String → List Namespace → Exec Requests String (Unit {0})
  unfolding change_label pure ◌>>◌
  change_labels enabled excluded [] = pure tt
  change_labels enabled excluded (namespace ∷ rest) =
      change_label (namespace_request enabled excluded namespace)
      >> change_labels enabled excluded rest

  unfoldable pub reconcile_action_mode_namespaces :
      Bool → List String → Exec Requests String (Unit {0})
  unfolding ask change_labels ◌>>=◌
  reconcile_action_mode_namespaces enabled excluded = do
    namespaces ← ask list_namespaces server.namespaces
    change_labels enabled excluded namespaces
