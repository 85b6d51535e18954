-- ===== src/Lifecycle/Workload/Confined.antt =====
-- operator_lifecycle.rs: what switching the operator on and off may ask for.
use hub_kubernetes_agent.Prelude.{
  String, Option, List, [], ◌∷◌, Bool, true, false, All, Result, none, some,
}
use hub_kubernetes_agent.Exec.{◌>>◌}
use hub_kubernetes_agent.Exec.Keeps.{Keeps, keeps_rules, Keeps-then}
use hub_kubernetes_agent.Model.Json.{Json}
use hub_kubernetes_agent.Model.Objects.{Namespace}
use hub_kubernetes_agent.Lifecycle.Api.{
  Request, get_pod, get_opt, delete, patch, create, list_namespaces, Requests, Server, ask,
}
use hub_kubernetes_agent.Operator.Namespaces.{namespace_is_excluded}
use hub_kubernetes_agent.Lifecycle.Desired.{operator_name, default_action_policy_name}
use hub_kubernetes_agent.Lifecycle.Labels.{
  LabelChange, set_label, remove_label, keep, label_request, request_named, namespace_request,
  change_label, change_labels, label_change, namespace_action_mode_value,
  reconcile_action_mode_namespaces,
}
use hub_kubernetes_agent.Lifecycle.Workload.{
  resolve_operator_image, ensure_operator_resources, remove_operator_resources,
  ensure_default_action_policy, reconcile_operator_workload, some_image,
}

-- What is the leader's to write: the operator's two objects in the namespace of the agent, the default
-- policy, and namespaces, which have none.
pub data IsOurs (home : String) : Option String → String → String → Type 0 where
  account : IsOurs home (some home) "ServiceAccount" operator_name
  deployment : IsOurs home (some home) "Deployment" operator_name
  policy : IsOurs home none "SentinellaHubActionPolicy" default_action_policy_name
  any_namespace : (name : String) → IsOurs home none "Namespace" name

-- What switching the operator on, or off, may ask for.
pub data IsConfined (home : String) : Bool → Request → Type 0 where
  looks :
      (enabled : Bool) (scope : Option String) (kind name : String)
      → IsOurs home scope kind name
      → IsConfined home enabled (get_opt scope kind name)
  deletes_deployment : IsConfined home false (delete (some home) "Deployment" operator_name)
  deletes_account : IsConfined home false (delete (some home) "ServiceAccount" operator_name)
  reads_pod : (name : String) → IsConfined home true (get_pod home name)
  lists : IsConfined home true list_namespaces
  patches :
      (scope : Option String) (kind name : String) (body : Json)
      → IsOurs home scope kind name
      → IsConfined home true (patch scope kind name body)
  creates :
      (scope : Option String) (kind name : String) (body : Json)
      → IsOurs home scope kind name
      → IsConfined home true (create scope kind name body)

abbrev pub AllConfined : String → Bool → Requests → Type 0
AllConfined home enabled requests = All (IsConfined home enabled) requests

Keeps-ask :
    {A : Type 0} (home : String) (enabled : Bool) (request : Request)
    (answer : Requests → Result String A)
    → IsConfined home enabled request
    → Keeps (AllConfined home enabled) (ask request answer)
unfolding ask
Keeps-ask home enabled request answer confined = record { at = λ s k. (confined, k) }

ruleset confined_rules = (
  keeps_rules, Keeps-ask, looks, deletes_deployment, deletes_account, reads_pod, lists, patches,
  creates, account, deployment, policy,
)

some_image-Keeps : {P : Requests → Type 0} (image : Option String) → Keeps P (some_image image)
unfolding some_image
some_image-Keeps none = record { at = λ s k. k }
some_image-Keeps (some image) = record { at = λ s k. k }

module _ (server : Server) (namespace : String) where
  remove_operator_resources-AllConfined :
      Keeps (AllConfined namespace false) (remove_operator_resources server namespace)
  unfolding remove_operator_resources
  remove_operator_resources-AllConfined = search confined_rules depth 16

  resolve_operator_image-AllConfined :
      (pod_name : String)
      → Keeps (AllConfined namespace true) (resolve_operator_image server namespace pod_name)
  unfolding resolve_operator_image
  resolve_operator_image-AllConfined pod_name = search (confined_rules, some_image-Keeps) depth 12

  ensure_operator_resources-AllConfined :
      (pod_name : String)
      → Keeps (AllConfined namespace true) (ensure_operator_resources server namespace pod_name)
  unfolding ensure_operator_resources
  ensure_operator_resources-AllConfined pod_name =
      search (confined_rules, resolve_operator_image-AllConfined) depth 16

  ensure_default_action_policy-AllConfined :
      Keeps (AllConfined namespace true) (ensure_default_action_policy server)
  unfolding ensure_default_action_policy
  ensure_default_action_policy-AllConfined = search confined_rules depth 16

  change_label-AllConfined :
      (enabled : Bool) (excluded : List String) (value name : Option String)
      → Keeps
          (AllConfined namespace true)
          (change_label server (request_named enabled excluded value name))
  unfolding change_label request_named label_request
  change_label-AllConfined enabled excluded value none = record { at = λ s k. k }
  change_label-AllConfined enabled excluded value (some name) =
      changed name (label_change enabled (namespace_is_excluded name excluded) value)
    where
      changed :
          (n : String) (change : LabelChange)
          → Keeps (AllConfined namespace true) (change_label server (label_request n change))
      changed n set_label = record { at = λ s k. (patches _ _ _ _ (any_namespace n), k) }
      changed n remove_label = record { at = λ s k. (patches _ _ _ _ (any_namespace n), k) }
      changed n keep = record { at = λ s k. k }

  change_labels-AllConfined :
      (enabled : Bool) (excluded : List String) (namespaces : List Namespace)
      → Keeps (AllConfined namespace true) (change_labels server enabled excluded namespaces)
  unfolding change_labels namespace_request
  change_labels-AllConfined enabled excluded [] = search confined_rules
  change_labels-AllConfined enabled excluded (first ∷ rest) =
      Keeps-then (change_label server (namespace_request enabled excluded first))
        (change_labels server enabled excluded rest)
        (change_label-AllConfined enabled excluded (namespace_action_mode_value first)
          first.metadata.name)
        (change_labels-AllConfined enabled excluded rest)

  reconcile_labels-AllConfined :
      (enabled : Bool) (excluded : List String)
      → Keeps
          (AllConfined namespace true)
          (reconcile_action_mode_namespaces server enabled excluded)
  unfolding reconcile_action_mode_namespaces
  reconcile_labels-AllConfined enabled excluded = search (confined_rules, change_labels-AllConfined)

  -- Whatever the API server answers, and wherever an error ends it: to switch the operator off asks
  -- only to look at the leader's objects and to delete the operator's Deployment and ServiceAccount in
  -- the namespace of the agent; it changes no policy and no label of a namespace. To switch it on
  -- deletes nothing, and writes only those two objects, the default policy, and namespaces.
  pub reconcile_operator_workload-AllConfined :
      (pod_name : String) (enabled : Bool) (excluded : List String) (requests : Requests)
      → AllConfined namespace enabled requests
      → AllConfined namespace enabled
          (reconcile_operator_workload server namespace pod_name enabled excluded requests).1
  unfolding reconcile_operator_workload
  reconcile_operator_workload-AllConfined pod_name true excluded requests confined =
      (Keeps-then (ensure_operator_resources server namespace pod_name)
          (ensure_default_action_policy server
            >> reconcile_action_mode_namespaces server true excluded)
          (ensure_operator_resources-AllConfined pod_name)
          (search (
            keeps_rules, ensure_default_action_policy-AllConfined, reconcile_labels-AllConfined,
          ))).at
        requests confined
  reconcile_operator_workload-AllConfined pod_name false excluded requests confined =
      remove_operator_resources-AllConfined.at requests confined
