-- ===== src/Executor/Preflight.antt =====
-- executor.rs: the checks before a change of a workload, which only warn.
use hub_kubernetes_agent.Prelude.{
  ℕ, String, Option, none, some, List, [], ◌∷◌, ◌++◌, map, Bool, true, false, not, ◌&&◌, ◌||◌, ◌==◌,
  if◌then◌else◌, ◌<>◌, all, sort, lookup, and_then, unwrap_or, map_or, is_some, is_none, is_text,
  nat_eq, contains, Result, ok, err,
}
use hub_kubernetes_agent.Exec.{Exec, pure, lift, attempt, ◌>>=◌}
use hub_kubernetes_agent.Model.Objects.{
  Labels, LabelSelector, LabelSelectorRequirement, Autoscaler, VerticalAutoscaler,
}
use hub_kubernetes_agent.Model.Json.{Json, pointer, as_str}
use hub_kubernetes_agent.Model.Command.{WorkloadResourcesSpec}
use hub_kubernetes_agent.Executor.Api.{Cluster, History, request, list_objects}

-- One expression of a selector.
unfoldable pub expression_matches : Labels → LabelSelectorRequirement → Bool
expression_matches labels expression =
    let value = lookup expression.key labels in
    let values = unwrap_or expression.values [] in
    if expression.operator == "In"
    then map_or value false (λ v. contains values v)
    else if expression.operator == "NotIn"
    then map_or value true (λ v. not (contains values v))
    else if expression.operator == "Exists"
    then is_some value
    else if expression.operator == "DoesNotExist"
    then is_none value
    else false

-- A map's entries are the labels that are expected.
unfoldable pub label_selector_matches : Option LabelSelector → Labels → Bool
unfolding expression_matches
label_selector_matches none labels = true
label_selector_matches (some selector) labels =
    all (λ entry. is_text (lookup entry.0 labels) entry.1) (unwrap_or selector.match_labels [])
    && all (expression_matches labels) (unwrap_or selector.match_expressions [])

unfoldable pub vpa_mode_is_conflicting : Option String → Bool
vpa_mode_is_conflicting mode =
    (unwrap_or mode "Auto" == "Auto") || (unwrap_or mode "Auto" == "Recreate")

unfoldable pub merge_check : String → Result String (List String) → List String
merge_check check_name (ok warnings) = warnings
merge_check check_name (err reason) =
    ("preflight.check.unavailable: " <> check_name <> " unavailable: " <> reason) ∷ []

-- The names of the items that pass; an item with no name is `<unknown>`.
unfoldable pub names_of : {A : Type 0} → (A → Bool) → (A → Option String) → List A → List String
names_of keep name [] = []
names_of keep name (item ∷ rest) =
    let names = names_of keep name rest in
    if keep item then unwrap_or (name item) "<unknown>" ∷ names else names

-- The digits of a count, for messages. The source prints a `usize`.
module _ (show : ℕ → String) (cluster : Cluster) (spec : WorkloadResourcesSpec) where
  hpa_targets : Autoscaler → Bool
  hpa_targets hpa =
      map_or hpa.target false
        (λ target. (target.0 == spec.workload_kind) && (target.1 == spec.name))

  unfoldable pub preflight_check_hpa : Exec History String (List String)
  unfolding request pure hpa_targets names_of sort ◌>>=◌
  preflight_check_hpa = do
    hpas ←
        request (list_objects "horizontalpodautoscalers" spec.namespace)
          (cluster.autoscalers spec.namespace)
    pure (
        map
          (λ name.
            "preflight.hpa.targeted: HPA " <> name <> " targets " <> spec.workload_kind <> "/"
            <> spec.name <> "; resource changes may affect autoscaling behavior")
          (sort (names_of hpa_targets (λ hpa. hpa.name) hpas)))

  -- The warning of one VerticalPodAutoscaler, if it has one.
  vpa_warning : VerticalAutoscaler → Json → List String
  unfolding pointer as_str vpa_mode_is_conflicting
  vpa_warning vpa value =
      let target_kind =
        unwrap_or (and_then (pointer ("spec" ∷ "targetRef" ∷ "kind" ∷ []) value) as_str) "" in
      let target_name =
        unwrap_or (and_then (pointer ("spec" ∷ "targetRef" ∷ "name" ∷ []) value) as_str) "" in
      let mode = and_then (pointer ("spec" ∷ "updatePolicy" ∷ "updateMode" ∷ []) value) as_str in
      if not (target_kind == spec.workload_kind) || not (target_name == spec.name)
      then []
      else if vpa_mode_is_conflicting mode
      then ("preflight.vpa.auto_mode: VPA "
          <> unwrap_or vpa.name "<unknown>"
          <> " targets "
          <> spec.workload_kind
          <> "/"
          <> spec.name
          <> " with updateMode="
          <> unwrap_or mode "Auto"
          <> "; manual resources may be overwritten")
        ∷ []
      else []

  -- The loop ends at the first value that cannot be converted.
  unfoldable pub vpa_warnings : List VerticalAutoscaler → Result String (List String)
  unfolding vpa_warning
  vpa_warnings [] = ok []
  vpa_warnings (vpa ∷ rest) =
      let later = vpa_warnings rest in
      elim vpa.value [
        | err e ↦ err e
        | ok value ↦ elim later [
          | err e ↦ err e
          | ok warnings ↦ ok (vpa_warning vpa value ++ warnings)
        ]
      ]

  unfoldable pub preflight_check_vpa : Exec History String (List String)
  unfolding request pure lift vpa_warnings sort ◌>>=◌
  preflight_check_vpa = do
    vpas ←
        request (list_objects "verticalpodautoscalers" spec.namespace)
          (cluster.vertical_autoscalers spec.namespace)
    warnings ← lift (vpa_warnings vpas)
    pure (sort warnings)

  unfoldable pub preflight_check_limitrange : Exec History String (List String)
  unfolding request pure ◌>>=◌
  preflight_check_limitrange = do
    count ←
        request (list_objects "limitranges" spec.namespace) (cluster.limit_ranges spec.namespace)
    pure (
        if nat_eq count 0
        then []
        else ("preflight.limitrange.present: namespace "
            <> spec.namespace
            <> " has "
            <> show count
            <> " LimitRange object(s); requested values may be constrained")
          ∷ [])

  unfoldable pub preflight_check_resourcequota : Exec History String (List String)
  unfolding request pure ◌>>=◌
  preflight_check_resourcequota = do
    count ←
        request (list_objects "resourcequotas" spec.namespace)
          (cluster.resource_quotas spec.namespace)
    pure (
        if nat_eq count 0
        then []
        else ("preflight.resourcequota.present: namespace "
            <> spec.namespace
            <> " has "
            <> show count
            <> " ResourceQuota object(s); requested values may exceed quota")
          ∷ [])

  unfoldable pub preflight_check_pdb : Labels → Exec History String (List String)
  unfolding request pure names_of label_selector_matches sort ◌>>=◌
  preflight_check_pdb pod_labels = do
    pdbs ←
        request (list_objects "poddisruptionbudgets" spec.namespace)
          (cluster.disruption_budgets spec.namespace)
    pure (
        map
          (λ name.
            "preflight.pdb.selector_overlap: PDB " <> name <> " selector matches "
            <> spec.workload_kind <> "/" <> spec.name <> " pod labels; rollout may be constrained")
          (sort (
            names_of (λ pdb. label_selector_matches pdb.selector pod_labels) (λ pdb. pdb.name)
              pdbs)))

  -- A check that fails gives a warning, and the next one is made.
  unfoldable pub collect_preflight_warnings : {E : Type 0} → Labels → Exec History E (List String)
  unfolding preflight_check_hpa preflight_check_vpa preflight_check_limitrange
      preflight_check_resourcequota preflight_check_pdb merge_check attempt pure ◌>>=◌
  collect_preflight_warnings pod_labels = do
    hpa ← attempt preflight_check_hpa
    vpa ← attempt preflight_check_vpa
    limitrange ← attempt preflight_check_limitrange
    resourcequota ← attempt preflight_check_resourcequota
    pdb ← attempt (preflight_check_pdb pod_labels)
    pure (
        merge_check "hpa" hpa
        ++ (merge_check "vpa" vpa
            ++ (merge_check "limitrange" limitrange
                ++ (merge_check "resourcequota" resourcequota ++ merge_check "pdb" pdb))))
