-- ===== src/Lifecycle/Workload.antt =====
-- operator_lifecycle.rs: the operator's ServiceAccount, Deployment and default policy.
pub mod Confined
use hub_kubernetes_agent.Prelude.{
  String, Option, none, some, List, [], ◌∷◌, Bool, true, false, if◌then◌else◌, and_then, Result, ok,
  err, ◌<>◌,
}
use hub_kubernetes_agent.Exec.{Exec, pure, fail, lift, or_else, ◌>>=◌, ◌>>◌}
use hub_kubernetes_agent.Model.Json.{Json}
use hub_kubernetes_agent.Lifecycle.Api.{
  Request, get_pod, get_opt, delete, patch, create, Requests, Server, ask,
}
use hub_kubernetes_agent.Lifecycle.Desired.{
  operator_name, default_action_policy_name, desired_operator_service_account,
  desired_operator_deployment, desired_default_action_policy,
}
use hub_kubernetes_agent.Lifecycle.Labels.{reconcile_action_mode_namespaces}

-- `iter().next()` and its image
abbrev pub first_image : Option (List (Option String)) → Option String
first_image none = none
first_image (some []) = none
first_image (some (image ∷ rest)) = image

unfoldable pub some_image : Option String → Exec Requests String String
unfolding pure fail
some_image (some image) = pure image
some_image none = fail "agent pod has no container image"

module _ (server : Server) where
  unfoldable pub resolve_operator_image : String → String → Exec Requests String String
  unfolding ask fail or_else ◌>>=◌
  resolve_operator_image namespace pod_name = do
    images ←
        or_else (ask (get_pod namespace pod_name) (server.pod_images namespace pod_name))
          (λ e. fail ("get agent pod " <> pod_name))
    some_image (first_image images)

  -- One write, with the text that is put around its error.
  unfoldable pub write : Request → String → Exec Requests String (Unit {0})
  unfolding ask fail or_else
  write request context = or_else (ask request (server.done request)) (λ e. fail context)

  -- `match api.get_opt(name).await? { Some(_) => patch, None => create }`
  unfoldable pub patch_or_create :
      Option String → String → String → Json → String → Exec Requests String (Unit {0})
  unfolding ask write ◌>>=◌
  patch_or_create scope kind name body what = do
    found ← ask (get_opt scope kind name) (server.exists scope kind name)
    if found
        then write (patch scope kind name body) ("patch " <> what)
        else write (create scope kind name body) ("create " <> what)

  unfoldable pub ensure_operator_resources : String → String → Exec Requests String (Unit {0})
  unfolding resolve_operator_image patch_or_create ◌>>=◌ ◌>>◌
  ensure_operator_resources namespace agent_pod_name = do
    image ← resolve_operator_image namespace agent_pod_name
    patch_or_create (some namespace) "ServiceAccount" operator_name
        (desired_operator_service_account namespace) "operator ServiceAccount"
    patch_or_create (some namespace) "Deployment" operator_name
        (desired_operator_deployment namespace image) "operator Deployment"

  -- `if api.get_opt(name).await?.is_some() { delete }`
  unfoldable pub delete_existing :
      Option String → String → String → String → Exec Requests String (Unit {0})
  unfolding ask write pure ◌>>=◌
  delete_existing scope kind name what = do
    found ← ask (get_opt scope kind name) (server.exists scope kind name)
    if found then write (delete scope kind name) ("delete " <> what) else pure tt

  unfoldable pub remove_operator_resources : String → Exec Requests String (Unit {0})
  unfolding delete_existing ◌>>◌
  remove_operator_resources namespace = do
    delete_existing (some namespace) "Deployment" operator_name "operator Deployment"
    delete_existing (some namespace) "ServiceAccount" operator_name "operator ServiceAccount"

  unfoldable pub ensure_default_action_policy : Exec Requests String (Unit {0})
  unfolding patch_or_create
  ensure_default_action_policy =
      patch_or_create none "SentinellaHubActionPolicy" default_action_policy_name
        desired_default_action_policy "default action policy"

  unfoldable pub reconcile_operator_workload :
      String → String → Bool → List String → Exec Requests String (Unit {0})
  unfolding ◌>>◌
  reconcile_operator_workload namespace agent_pod_name enabled excluded_namespaces =
      if enabled
      then (do
        ensure_operator_resources namespace agent_pod_name
        ensure_default_action_policy
        reconcile_action_mode_namespaces server true excluded_namespaces)
      else remove_operator_resources namespace
