-- ===== src/Lifecycle/Api.antt =====
-- operator_lifecycle.rs: its view of the API server. What it asks is a request; the answers may
-- depend on all that was asked before.
use hub_kubernetes_agent.Prelude.{String, Option, List, ◌∷◌, Bool, Result}
use hub_kubernetes_agent.Exec.{Exec}
use hub_kubernetes_agent.Model.Json.{Json}
use hub_kubernetes_agent.Model.Objects.{Namespace}

pub data Request : Type 0 where
  -- namespace, name
  get_pod : String → String → Request
  -- namespace, where the kind has one; kind; name
  get_opt : Option String → String → String → Request
  delete : Option String → String → String → Request
  -- and the body
  patch : Option String → String → String → Json → Request
  create : Option String → String → String → Json → Request
  list_namespaces : Request

-- The newest request first.
abbrev pub Requests : Type 0
Requests = List Request

pub record Server : Type 0 where
  -- the image of each container of the pod, where it has one; none where the pod has no spec
  pub pod_images : String → String → Requests → Result String (Option (List (Option String)))
  pub exists : Option String → String → String → Requests → Result String Bool
  pub namespaces : Requests → Result String (List Namespace)
  pub done : Request → Requests → Result String (Unit {0})

unfoldable pub ask : {A : Type 0} → Request → (Requests → Result String A) → Exec Requests String A
ask request answer requests = (answer requests, request ∷ requests)
