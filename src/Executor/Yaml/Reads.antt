-- ===== src/Executor/Yaml/Reads.antt =====
-- executor.rs: what `get_resource_yaml` reads.
use hub_kubernetes_agent.Prelude.{
  ok-injective, err_ok, ◌≡◌, ◌≢◌, refl, sym, ℕ, String, Option, none, some, List, [], ◌∷◌, Memᴰ,
  Bool, true, false, ◌==◌, ◌&&◌, eq_iff, if◌then◌else◌, trim, Result, ok, err, Result-cases,
  Bool-cases, inl, inr, subst,
}
use hub_kubernetes_agent.Prelude.Decisions.{some-injective, and_true, text_differs}
use hub_kubernetes_agent.Exec.{Exec, recover, continue, or_else, ◌>>=◌}
use hub_kubernetes_agent.Exec.Keeps.{Keeps, keeps_rules, bind_after, or_else_after}
use hub_kubernetes_agent.Model.Json.{Json}
use hub_kubernetes_agent.Model.Objects.{DynamicObject, KubeError}
use hub_kubernetes_agent.Model.Command.{ResourceYamlSpec}
use hub_kubernetes_agent.Executor.Api.{Handler, Cluster, History, get_object, request}
use hub_kubernetes_agent.Executor.Gate.{Config, return_simple_error}
use hub_kubernetes_agent.Executor.Gate.Quiet.{Keeps-read, return_simple_error-Keeps}
use hub_kubernetes_agent.Executor.Yaml.{
  ResourceYamlTarget, resource_yaml_supported_targets, find_target, resource_yaml_target,
  split_api_version, checked_namespace, fetch_yaml, render_yaml, read_failed, yaml_result,
  fetch_split, fetch_target, get_resource_yaml,
}

-- A namespace for a kind that has one, and none for one that has not.
pub data IsScope : Bool → String → Type 0 where
  namespaced : (namespace : String) → namespace ≢ "" → IsScope true namespace
  cluster_wide : IsScope false ""

-- Nothing is read, or one object of a kind that the table has, in the scope of its kind.
pub data YamlRead (spec : ResourceYamlSpec) (h : History) : History → Type 0 where
  nothing_read : YamlRead spec h h
  one_read :
      (target : ResourceYamlTarget) (group version namespace : String)
      → Memᴰ target resource_yaml_supported_targets
      → target.api_version ≡ trim spec.api_version
      → target.kind ≡ trim spec.kind
      → IsScope target.namespaced namespace
      → trim spec.kind ≢ "Secret"
      → split_api_version (trim spec.api_version) ≡ some (group, version)
      → YamlRead spec h (get_object group version (trim spec.kind) namespace (trim spec.name) ∷ h)

find_target_lem :
    (targets : List ResourceYamlTarget) (api_version kind : String) (found : ResourceYamlTarget)
    → find_target targets api_version kind ≡ some found
    → (Memᴰ found targets) × (found.api_version ≡ api_version) × (found.kind ≡ kind)
unfolding find_target
find_target_lem [] api_version kind found h = cc
find_target_lem (t ∷ rest) api_version kind found h =
    elim (Bool-cases ((t.api_version == api_version) && (t.kind == kind))) [
      | inl here ↦
          let same : t ≡ found = some-injective (rw here at h) in
          let matched = and_true here in
          (
            Memᴰ.head (sym same),
            subst (λ f. f.api_version ≡ api_version) same
                ((eq_iff t.api_version api_version).0 matched.0),
            subst (λ f. f.kind ≡ kind) same ((eq_iff t.kind kind).0 matched.1),
          )
      | inr elsewhere ↦
          let (later, version, of_kind) =
            find_target_lem rest api_version kind found (rw elsewhere at h) in
          (Memᴰ.tail later, version, of_kind)
    ]

checked_namespace-IsScope :
    (scoped : Bool) (kind : String) (given : Option String) (namespace : String)
    → checked_namespace scoped kind given ≡ ok namespace
    → IsScope scoped namespace
unfolding checked_namespace
checked_namespace-IsScope true kind none namespace h = cc
checked_namespace-IsScope false kind none namespace h =
    subst (IsScope false) (ok-injective h) cluster_wide
checked_namespace-IsScope true kind (some text) namespace h = elim (Bool-cases (trim text == "")) [
  | inl blank ↦ absurd (err_ok (rw blank at h))
  | inr given ↦
      subst (IsScope true) (ok-injective (rw given at h))
        (namespaced (trim text) (text_differs (trim text) "" given))
]
checked_namespace-IsScope false kind (some text) namespace h = elim (Bool-cases (trim text == "")) [
  | inl blank ↦ subst (IsScope false) (ok-injective (rw blank at h)) cluster_wide
  | inr given ↦ absurd (err_ok (rw given at h))
]

recover-Keeps :
    {S E F A : Type 0} {P : S → Type 0} (r : Result E A) (f : E → Exec S F A)
    → ((e : E) → Keeps P (f e))
    → Keeps P (recover r f)
unfolding recover
recover-Keeps (ok a) f kf = record { at = λ s k. k }
recover-Keeps (err e) f kf = kf e

module _ (show : ℕ → String) (to_yaml : Json → Result String String) (cluster : Cluster)
    (cfg : Config) (command_id : String) where
  render_yaml-Keeps :
      {P : History → Type 0} (api_version kind namespace name : String) (found : DynamicObject)
      → Keeps P
          (render_yaml show to_yaml cluster cfg command_id api_version kind namespace name found)
  unfolding render_yaml yaml_result
  render_yaml-Keeps api_version kind namespace name found =
      search (keeps_rules, recover-Keeps, Keeps-read, return_simple_error-Keeps) depth 16

  read_failed-Keeps :
      {A : Type 0} {P : History → Type 0} (kind namespace name : String) (e : KubeError)
      → Keeps P (read_failed show to_yaml cluster cfg command_id {A = A} kind namespace name e)
  unfolding read_failed
  read_failed-Keeps kind namespace name e = return_simple_error-Keeps cluster cfg command_id _

  -- The request is the only one.
  fetch_yaml-events :
      (api_version kind namespace name group version : String) (h : History)
      → (fetch_yaml show to_yaml cluster cfg command_id api_version kind namespace name
          (group, version)
          h).1
        ≡ get_object group version kind namespace name ∷ h
  unfolding fetch_yaml request
  fetch_yaml-events api_version kind namespace name group version h =
      let event = get_object group version kind namespace name in
      let asked = request event (cluster.object group version kind namespace name) in
      bind_after {P = λ s. s ≡ event ∷ h}
        (or_else asked (read_failed show to_yaml cluster cfg command_id kind namespace name))
        (render_yaml show to_yaml cluster cfg command_id api_version kind namespace name) h
        (render_yaml-Keeps api_version kind namespace name)
        (or_else_after {P = λ s. s ≡ event ∷ h} asked
          (read_failed show to_yaml cluster cfg command_id kind namespace name) h
          (read_failed-Keeps kind namespace name) refl)

  fetch_split-YamlRead :
      (spec : ResourceYamlSpec) (h : History) (target : ResourceYamlTarget) (namespace : String)
      → Memᴰ target resource_yaml_supported_targets
      → target.api_version ≡ trim spec.api_version
      → target.kind ≡ trim spec.kind
      → IsScope target.namespaced namespace
      → trim spec.kind ≢ "Secret"
      → (parts : Option (String × String)) → split_api_version (trim spec.api_version) ≡ parts
      → YamlRead spec h
          (fetch_split show to_yaml cluster cfg command_id
            (trim spec.api_version)
            (trim spec.kind)
            namespace
            (trim spec.name)
            parts
            h).1
  unfolding fetch_split return_simple_error
  fetch_split-YamlRead spec h target namespace member version kind scope public none split =
      nothing_read
  fetch_split-YamlRead spec h target namespace member version kind scope public
        (some (group, number)) split =
      subst (YamlRead spec h)
        (sym (
          fetch_yaml-events (trim spec.api_version) (trim spec.kind) namespace (trim spec.name)
            group number h))
        (one_read target group number namespace member version kind scope public split)

  fetch_target-YamlRead :
      (spec : ResourceYamlSpec) (h : History)
      → trim spec.kind ≢ "Secret"
      → (target : Option ResourceYamlTarget)
      → resource_yaml_target (trim spec.api_version) (trim spec.kind) ≡ target
      → YamlRead spec h
          (fetch_target show to_yaml cluster cfg command_id
            (trim spec.api_version)
            (trim spec.kind)
            spec.namespace
            (trim spec.name)
            target
            h).1
  unfolding fetch_target return_simple_error resource_yaml_target ◌>>=◌
  fetch_target-YamlRead spec h public none found = nothing_read
  fetch_target-YamlRead spec h public (some target) found =
      let (member, version, kind) =
        find_target_lem resource_yaml_supported_targets (trim spec.api_version) (trim spec.kind)
          target found in
      elim (Result-cases (checked_namespace target.namespaced (trim spec.kind) spec.namespace)) [
        | inr (e, wrong) ↦ rw (wrong, recover, continue) nothing_read
        | inl (namespace, right) ↦
            rw (right, recover, continue)
              (fetch_split-YamlRead spec h target namespace member version kind
                (checked_namespace-IsScope target.namespaced (trim spec.kind) spec.namespace
                  namespace right)
                public (split_api_version (trim spec.api_version)) refl)
      ]

  YamlRead-if :
      (spec : ResourceYamlSpec) (h : History) (test : Bool) (m n : Handler)
      → (test ≡ true → YamlRead spec h (m h).1)
      → (test ≡ false → YamlRead spec h (n h).1)
      → YamlRead spec h ((if test then m else n) h).1
  YamlRead-if spec h true m n rm rn = rm refl
  YamlRead-if spec h false m n rm rn = rn refl

  -- Whatever the cluster answers, get_resource_yaml sends no request at all, or a single one: it
  -- reads the object of the trimmed name, of a kind and version that stand in the table of supported
  -- targets and are those that were asked for, trimmed, in a namespace if the kind has one and in
  -- none if it has not; and the kind is not Secret.
  pub get_resource_yaml-YamlRead :
      (spec : ResourceYamlSpec) (h : History)
      → YamlRead spec h (get_resource_yaml show to_yaml cluster cfg command_id spec h).1
  unfolding get_resource_yaml
  get_resource_yaml-YamlRead spec h =
      YamlRead-if spec h (trim spec.api_version == "") _ _ (λ _. nothing_read)
        (λ _.
          YamlRead-if spec h (trim spec.kind == "") _ _ (λ _. nothing_read)
            (λ _.
              YamlRead-if spec h (trim spec.name == "") _ _ (λ _. nothing_read)
                (λ _.
                  YamlRead-if spec h (trim spec.kind == "Secret") _ _ (λ _. nothing_read)
                    (λ public.
                      fetch_target-YamlRead spec h (text_differs (trim spec.kind) "Secret" public)
                        (resource_yaml_target (trim spec.api_version) (trim spec.kind)) refl))))
