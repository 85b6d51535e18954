-- ===== src/Executor/Yaml.antt =====
-- executor.rs: `get_resource_yaml` and `diagnose_postgresql`; model.rs: the kinds that are rendered.
pub mod Versions
pub mod Reads
use hub_kubernetes_agent.Prelude.{
  ℕ, String, Option, none, some, List, [], ◌∷◌, ◌++◌, Bool, true, false, ◌&&◌, ◌||◌, ◌==◌, ltb,
  if◌then◌else◌, ◌<>◌, and_then, trim, split_once, byte_length, nat_eq, Result, ok, err, ◌*◌,
}
use hub_kubernetes_agent.Exec.{Exec, pure, or_else, recover, ◌>>=◌}
use hub_kubernetes_agent.Model.Objects.{DynamicObject, KubeError, api_error, other_error}
use hub_kubernetes_agent.Model.Json.{
  Json, null, string, object, Fields, done, field, obj, optional_text, field_of, remove_field,
  remove_fields, get,
}
use hub_kubernetes_agent.Model.Command.{ResourceYamlSpec, PostgresqlDiagnosticSpec, execute}
use hub_kubernetes_agent.Model.Result.{CommandResult, simple}
use hub_kubernetes_agent.Executor.Api.{
  Cluster, History, Handler, Early, request, read, get_object, diagnose,
}
use hub_kubernetes_agent.Executor.Gate.{
  Config, ensure_effective_policy_allows, return_error, return_simple_error,
}

pub record ResourceYamlTarget : Type 0 where
  pub api_version : String
  pub kind : String
  pub namespaced : Bool

abbrev target : String → String → Bool → ResourceYamlTarget
target api_version kind namespaced = record {
  api_version = api_version;
  kind = kind;
  namespaced = namespaced;
}

abbrev pub resource_yaml_supported_targets : List ResourceYamlTarget
resource_yaml_supported_targets =
    target "v1" "Pod" true
    ∷ target "v1" "Service" true
    ∷ target "v1" "ConfigMap" true
    ∷ target "v1" "PersistentVolumeClaim" true
    ∷ target "v1" "PersistentVolume" false
    ∷ target "v1" "Namespace" false
    ∷ target "apps/v1" "Deployment" true
    ∷ target "apps/v1" "StatefulSet" true
    ∷ target "apps/v1" "DaemonSet" true
    ∷ target "apps/v1" "ReplicaSet" true
    ∷ target "batch/v1" "Job" true
    ∷ target "batch/v1" "CronJob" true
    ∷ target "networking.k8s.io/v1" "Ingress" true
    ∷ target "networking.k8s.io/v1" "NetworkPolicy" true
    ∷ []

-- `.find(|target| target.api_version == api_version && target.kind == kind)`
pub find_target : List ResourceYamlTarget → String → String → Option ResourceYamlTarget
find_target [] api_version kind = none
find_target (t ∷ rest) api_version kind =
    let later = find_target rest api_version kind in
    if (t.api_version == api_version) && (t.kind == kind) then some t else later

unfoldable pub resource_yaml_target : String → String → Option ResourceYamlTarget
unfolding find_target
resource_yaml_target api_version kind = find_target resource_yaml_supported_targets api_version kind

unfoldable pub split_api_version : String → Option (String × String)
split_api_version api_version = elim (split_once api_version "/") [
  | some (group, version) ↦ if (group == "") || (version == "") then none else some (group, version)
  | none ↦ if api_version == "" then none else some ("", api_version)
]

abbrev pub removed_metadata : List String
removed_metadata =
    "managedFields" ∷ "resourceVersion" ∷ "uid" ∷ "creationTimestamp" ∷ "generation" ∷ "selfLink"
    ∷ []

-- The first field of a key gets another value.
abbrev pub set_field : String → Json → Fields → Fields
set_field key value done = done
set_field key value (field k old rest) =
    let later = set_field key value rest in
    if k == key then field k value rest else field k old later

-- What is left of the object, or the error.
unfoldable pub sanitize_manifest_like_yaml : Json → Result String Json
sanitize_manifest_like_yaml (object fields) = elim (field_of "metadata" fields) [
  | none ↦ ok (object (remove_field "status" fields))
  | some metadata ↦ elim metadata [
    | object entries ↦ ok (
        object (
          remove_field "status"
            (set_field "metadata" (object (remove_fields removed_metadata entries)) fields)))
    | _ ↦ err "expected Kubernetes metadata object"
  ]
]
sanitize_manifest_like_yaml _ = err "expected Kubernetes object payload"

unfoldable pub resource_yaml_read_error :
    (ℕ → String) → String → String → String → KubeError → String
resource_yaml_read_error show kind namespace name failure =
    let scope =
      if namespace == "" then kind <> " " <> name else kind <> " " <> namespace <> "/" <> name in
    elim failure [
      | api_error code reason ↦
          if nat_eq code 403
          then "forbidden to read " <> scope
          else if nat_eq code 404
          then "resource " <> scope <> " not found"
          else "failed to read " <> scope <> ": kube API error " <> show code <> " " <> reason
      | other_error text ↦ "failed to read " <> scope <> ": " <> text
    ]

abbrev pub resource_yaml_max_bytes : ℕ
resource_yaml_max_bytes = 512 * 1024

-- The namespace of the request, or the error; a namespace that is blank counts as none.
unfoldable pub checked_namespace : Bool → String → Option String → Result String String
unfolding trim
checked_namespace namespaced kind none =
    if namespaced
    then err ("namespace is required for namespaced resource kind " <> kind)
    else ok ""
checked_namespace namespaced kind (some text) =
    let namespace = trim text in
    if namespaced
    then if namespace == ""
      then err ("namespace is required for namespaced resource kind " <> kind)
      else ok namespace
    else if namespace == ""
    then ok ""
    else err ("namespace must be omitted for cluster-scoped resource kind " <> kind)

requested_resource : String → String → String → String → Json
unfolding obj
requested_resource api_version kind namespace name = obj (
    ("apiVersion", string api_version)
    ∷ ("kind", string kind)
    ∷ ("namespace", if namespace == "" then null else string namespace)
    ∷ ("name", string name)
    ∷ [])

-- The digits of a number, for messages, and `serde_yaml::to_string`.
module _ (show : ℕ → String) (to_yaml : Json → Result String String) (cluster : Cluster)
    (cfg : Config) (command_id : String) where
  -- `resource_yaml_error`, where it is returned.
  abbrev resource_yaml_error : {A : Type 0} → String → Exec History Early A
  resource_yaml_error = return_simple_error cluster cfg command_id

  -- The answer, once the object is read.
  unfoldable pub yaml_result : String → String → String → String → DynamicObject → String → Handler
  unfolding requested_resource obj pure read ◌>>=◌
  yaml_result api_version kind namespace name found content = do
    now ← read cluster.now_ms
    fetched_at ← read cluster.now_rfc3339
    pure (record (simple now command_id "ok" none) {
      requested_state = some (requested_resource api_version kind namespace name);
      resource_yaml = some (
          obj (
            ("clusterId", string cfg.cluster_id)
            ∷ (
              "resource",
              obj (
                  ("apiVersion", string api_version)
                    ∷ ("kind", string kind)
                    ∷ (if namespace == "" then [] else ("namespace", string namespace) ∷ [])
                  ++ (("name", string name) ∷ elim found.resource_version [
                    | none ↦ []
                    | some version ↦ ("resourceVersion", string version) ∷ []
                  ])),
            )
            ∷ ("format", string "yaml")
            ∷ ("mode", string "manifest")
            ∷ ("content", string content)
            ∷ ("fetchedAt", string fetched_at)
            ∷ []));
    })

  -- From the object to the answer.
  unfoldable pub render_yaml : String → String → String → String → DynamicObject → Handler
  unfolding return_simple_error recover sanitize_manifest_like_yaml yaml_result ◌>>=◌
  render_yaml api_version kind namespace name found = do
    value ← recover found.value (λ e.
        resource_yaml_error ("failed to serialize " <> kind <> " " <> name <> " to JSON: " <> e))
    sanitized ← recover (sanitize_manifest_like_yaml value) resource_yaml_error
    yaml ← recover (to_yaml sanitized) (λ e.
        resource_yaml_error ("failed to serialize " <> kind <> " " <> name <> " to YAML: " <> e))
    if ltb resource_yaml_max_bytes (byte_length yaml)
        then resource_yaml_error (
            "resource YAML exceeds maximum size of "
            <> show resource_yaml_max_bytes
            <> " bytes (got "
            <> show (byte_length yaml)
            <> ")")
        else yaml_result api_version kind namespace name found yaml

  unfoldable pub read_failed :
      {A : Type 0} → String → String → String → KubeError → Exec History Early A
  unfolding return_simple_error resource_yaml_read_error
  read_failed kind namespace name e =
      resource_yaml_error (resource_yaml_read_error show kind namespace name e)

  unfoldable pub fetch_yaml : String → String → String → String → String × String → Handler
  unfolding request read_failed or_else render_yaml ◌>>=◌
  fetch_yaml api_version kind namespace name (group, version) =
      or_else
        (request (get_object group version kind namespace name)
          (cluster.object group version kind namespace name))
        (read_failed kind namespace name)
      >>= render_yaml api_version kind namespace name

  -- `let Some((group, version)) = split_api_version(…) else { return … }`
  unfoldable pub fetch_split :
      String → String → String → String → Option (String × String) → Handler
  unfolding return_simple_error
  fetch_split api_version kind namespace name none =
      resource_yaml_error ("unsupported apiVersion format " <> api_version)
  fetch_split api_version kind namespace name (some parts) =
      fetch_yaml api_version kind namespace name parts

  -- `let Some(target) = resource_yaml_target(…) else { return … }`, and the namespace
  unfoldable pub fetch_target :
      String → String → Option String → String → Option ResourceYamlTarget → Handler
  unfolding return_simple_error recover ◌>>=◌
  fetch_target api_version kind namespace name none =
      resource_yaml_error
        ("unsupported resource kind " <> kind <> " with apiVersion " <> api_version)
  fetch_target api_version kind namespace name (some target) = do
    checked ← recover (checked_namespace target.namespaced kind namespace) resource_yaml_error
    fetch_split api_version kind checked name (split_api_version api_version)

  unfoldable pub get_resource_yaml : ResourceYamlSpec → Handler
  unfolding return_simple_error
  get_resource_yaml spec =
      let api_version = trim spec.api_version in
      let kind = trim spec.kind in
      let name = trim spec.name in
      if api_version == ""
      then resource_yaml_error "apiVersion is required"
      else if kind == ""
      then resource_yaml_error "kind is required"
      else if name == ""
      then resource_yaml_error "name is required"
      else if kind == "Secret"
      then resource_yaml_error "Secret retrieval is disabled"
      else fetch_target api_version kind spec.namespace name (resource_yaml_target api_version kind)

module _ (cluster : Cluster) (cfg : Config) (command_id : String) where
  unfoldable pub diagnose_postgresql : PostgresqlDiagnosticSpec → Handler
  unfolding ensure_effective_policy_allows return_error request or_else pure read ◌>>=◌
  diagnose_postgresql spec = do
    policy ←
        or_else
          (ensure_effective_policy_allows cluster cfg spec.namespace "diagnose_postgresql" none
            none)
          (return_error cluster cfg command_id execute)
    report ← request (diagnose spec.namespace) (λ h. ok (cluster.diagnosis spec h))
    now ← read cluster.now_ms
    pure (record (simple now command_id "ok" none) { diagnostic = some report })
