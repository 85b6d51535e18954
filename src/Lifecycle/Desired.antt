-- ===== src/Lifecycle/Desired.antt =====
-- operator_lifecycle.rs: the objects that the leader wants.
use hub_kubernetes_agent.Prelude.{String, List, [], ◌∷◌, true, false, pos}
use hub_kubernetes_agent.Model.Json.{Json, bool, string, number, array, nil, cons, obj, texts}

abbrev pub operator_name : String
operator_name = "sentinella-hub-k8s-operator"

abbrev pub config_map_name : String
config_map_name = "sentinella-hub-k8s-agent-config"

abbrev pub default_action_policy_name : String
default_action_policy_name = "sentinella-default-action-policy"

abbrev pub default_allowed_actions : List String
default_allowed_actions =
    "diagnose_postgresql" ∷ "preview_workload_resources" ∷ "apply_workload_resources"
    ∷ "get_resource_yaml" ∷ "rollout_restart" ∷ "scale" ∷ "self_update" ∷ "update_agent" ∷ []

abbrev pub default_allowed_resources : List String
default_allowed_resources = "Deployment" ∷ "StatefulSet" ∷ "DaemonSet" ∷ []

unfoldable pub desired_default_action_policy : Json
unfolding obj texts
desired_default_action_policy = obj (
    ("apiVersion", string "sentinella.io/v1alpha1")
    ∷ ("kind", string "SentinellaHubActionPolicy")
    ∷ (
      "metadata",
      obj (
          ("name", string default_action_policy_name)
          ∷ (
            "labels",
            obj (
                ("app.kubernetes.io/part-of", string "sentinella")
                ∷ ("sentinella.io/managed-by", string "sentinella-hub-k8s-agent")
                ∷ []),
          )
          ∷ []),
    )
    ∷ (
      "spec",
      obj (
          ("allowedActions", texts default_allowed_actions)
          ∷ ("allowedResources", texts default_allowed_resources)
          ∷ []),
    )
    ∷ [])

unfoldable pub desired_operator_service_account : String → Json
unfolding obj
desired_operator_service_account namespace = obj (
    ("apiVersion", string "v1")
    ∷ ("kind", string "ServiceAccount")
    ∷ (
      "metadata",
      obj (
          ("name", string operator_name)
          ∷ ("namespace", string namespace)
          ∷ (
            "labels",
            obj (
                ("app.kubernetes.io/name", string operator_name)
                ∷ ("app.kubernetes.io/part-of", string "sentinella")
                ∷ ("sentinella.io/managed-by", string "sentinella-hub-k8s-agent")
                ∷ []),
          )
          ∷ []),
    )
    ∷ [])

-- The container of the operator, from its image.
operator_container : String → Json
unfolding obj texts
operator_container image = obj (
    ("name", string "operator")
    ∷ ("image", string image)
    ∷ ("imagePullPolicy", string "IfNotPresent")
    ∷ ("args", texts ("--mode" ∷ "operator" ∷ []))
    ∷ (
      "envFrom",
      array (cons (obj (("configMapRef", obj (("name", string config_map_name) ∷ [])) ∷ [])) nil),
    )
    ∷ (
      "env",
      array (
          cons
            (obj (
              ("name", string "POD_NAME")
              ∷ (
                "valueFrom",
                obj (("fieldRef", obj (("fieldPath", string "metadata.name") ∷ [])) ∷ []),
              )
              ∷ []))
            (cons
              (obj (
                ("name", string "POD_NAMESPACE")
                ∷ (
                  "valueFrom",
                  obj (("fieldRef", obj (("fieldPath", string "metadata.namespace") ∷ [])) ∷ []),
                )
                ∷ []))
              nil)),
    )
    ∷ (
      "ports",
      array (
          cons
            (obj (
              ("name", string "metrics")
              ∷ ("containerPort", number (pos 9090))
              ∷ ("protocol", string "TCP")
              ∷ []))
            nil),
    )
    ∷ (
      "startupProbe",
      obj (
          ("httpGet", obj (("path", string "/livez") ∷ ("port", string "metrics") ∷ []))
          ∷ ("periodSeconds", number (pos 5))
          ∷ ("timeoutSeconds", number (pos 2))
          ∷ ("failureThreshold", number (pos 12))
          ∷ []),
    )
    ∷ (
      "livenessProbe",
      obj (
          ("httpGet", obj (("path", string "/livez") ∷ ("port", string "metrics") ∷ []))
          ∷ ("periodSeconds", number (pos 30))
          ∷ ("timeoutSeconds", number (pos 2))
          ∷ ("failureThreshold", number (pos 3))
          ∷ []),
    )
    ∷ (
      "readinessProbe",
      obj (
          ("httpGet", obj (("path", string "/readyz") ∷ ("port", string "metrics") ∷ []))
          ∷ ("initialDelaySeconds", number (pos 5))
          ∷ ("periodSeconds", number (pos 10))
          ∷ ("timeoutSeconds", number (pos 2))
          ∷ ("failureThreshold", number (pos 3))
          ∷ []),
    )
    ∷ (
      "resources",
      obj (
          ("requests", obj (("cpu", string "10m") ∷ ("memory", string "32Mi") ∷ []))
          ∷ ("limits", obj (("cpu", string "100m") ∷ ("memory", string "128Mi") ∷ []))
          ∷ []),
    )
    ∷ (
      "securityContext",
      obj (
          ("allowPrivilegeEscalation", bool false)
          ∷ ("readOnlyRootFilesystem", bool true)
          ∷ ("capabilities", obj (("drop", texts ("ALL" ∷ [])) ∷ []))
          ∷ []),
    )
    ∷ [])

unfoldable pub desired_operator_deployment : String → String → Json
unfolding obj texts operator_container
desired_operator_deployment namespace image = obj (
    ("apiVersion", string "apps/v1")
    ∷ ("kind", string "Deployment")
    ∷ (
      "metadata",
      obj (
          ("name", string operator_name)
          ∷ ("namespace", string namespace)
          ∷ (
            "labels",
            obj (
                ("app.kubernetes.io/name", string operator_name)
                ∷ ("app.kubernetes.io/part-of", string "sentinella")
                ∷ ("sentinella.io/managed-by", string "sentinella-hub-k8s-agent")
                ∷ []),
          )
          ∷ []),
    )
    ∷ (
      "spec",
      obj (
          ("replicas", number (pos 1))
          ∷ (
            "selector",
            obj (("matchLabels", obj (("app.kubernetes.io/name", string operator_name) ∷ [])) ∷ []),
          )
          ∷ (
            "template",
            obj (
                (
                  "metadata",
                  obj (
                      (
                        "labels",
                        obj (
                            ("app.kubernetes.io/name", string operator_name)
                            ∷ ("app.kubernetes.io/part-of", string "sentinella")
                            ∷ []),
                      )
                      ∷ (
                        "annotations",
                        obj (
                            ("prometheus.io/scrape", string "true")
                            ∷ ("prometheus.io/port", string "9090")
                            ∷ ("prometheus.io/path", string "/metrics")
                            ∷ []),
                      )
                      ∷ []),
                )
                ∷ (
                  "spec",
                  obj (
                      ("serviceAccountName", string operator_name)
                      ∷ (
                        "securityContext",
                        obj (
                            ("runAsNonRoot", bool true)
                            ∷ ("seccompProfile", obj (("type", string "RuntimeDefault") ∷ []))
                            ∷ []),
                      )
                      ∷ ("containers", array (cons (operator_container image) nil))
                      ∷ []),
                )
                ∷ []),
          )
          ∷ []),
    )
    ∷ [])
