-- ===== src/Model/Objects.antt =====
-- The fields of Kubernetes objects that the agent reads. The types themselves are those of the
-- `k8s-openapi` crate; a map is an association list.
use hub_kubernetes_agent.Model.Json.{Json}
use hub_kubernetes_agent.Prelude.{ℕ, Result, String, Option, List, Bool, ℤ}

abbrev pub Labels : Type 0
Labels = List (String × String)

-- An entry of `metadata.ownerReferences`, with the one field that is read.
pub record OwnerReference : Type 0 where
  pub kind : String

pub record ObjectMeta : Type 0 where
  pub name : Option String
  pub namespace : Option String
  pub generation : Option ℤ
  pub labels : Option Labels
  pub annotations : Option Labels
  pub owner_references : Option (List OwnerReference)

pub record Namespace : Type 0 where
  pub metadata : ObjectMeta

pub record Pod : Type 0 where
  pub metadata : ObjectMeta
  -- `spec.nodeName`; none too where the pod has no spec
  pub node_name : Option String

-- `spec.unschedulable`; none too where the node has no spec
pub record Node : Type 0 where
  pub unschedulable : Option Bool

pub record LabelSelectorRequirement : Type 0 where
  pub key : String
  pub operator : String
  pub values : Option (List String)

pub record LabelSelector : Type 0 where
  pub match_labels : Option Labels
  pub match_expressions : Option (List LabelSelectorRequirement)

-- The quantities of a container, as texts.
pub record ResourceRequirements : Type 0 where
  pub requests : Option Labels
  pub limits : Option Labels

pub record Container : Type 0 where
  pub name : String
  pub image : Option String
  pub resources : Option ResourceRequirements

-- A HorizontalPodAutoscaler: its name, and the kind and name of its target, where it has a spec.
pub record Autoscaler : Type 0 where
  pub name : Option String
  pub target : Option (String × String)

-- A VerticalPodAutoscaler, an object without a type in the source: its name, and its JSON value,
-- or the error of the conversion.
pub record VerticalAutoscaler : Type 0 where
  pub name : Option String
  pub value : Result String Json

-- A PodDisruptionBudget: its name, and its selector; none too where it has no spec.
pub record DisruptionBudget : Type 0 where
  pub name : Option String
  pub selector : Option LabelSelector

-- An object without a type: its resource version, and its JSON value, or the error of the
-- conversion.
pub record DynamicObject : Type 0 where
  pub resource_version : Option String
  pub value : Result String Json

-- The error of a request: a status with its code and reason, or the text of another error.
pub data KubeError : Type 0 where
  api_error : ℕ → String → KubeError
  other_error : String → KubeError
