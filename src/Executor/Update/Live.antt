-- ===== src/Executor/Update/Live.antt =====
-- executor.rs: what `update_agent` changes, and when.
use hub_kubernetes_agent.Prelude.{
  ◌≡◌, refl, ℕ, String, none, true, false, List, ◌∷◌, subst, sym, Result, ok, err, trim,
  Result-cases, inl, inr,
}
use hub_kubernetes_agent.Exec.{or_else, recover, continue, ◌>>=◌}
use hub_kubernetes_agent.Exec.Keeps.{Keeps, keeps_rules, bind_after, or_else_after}
use hub_kubernetes_agent.Exec.Leads.{Leads, Leads-bind, or_else_split}
use hub_kubernetes_agent.Model.Command.{UpdateAgentSpec, SelfUpdateSpec}
use hub_kubernetes_agent.Executor.Api.{Workload, Cluster, History, Event, Early, patch_workload}
use hub_kubernetes_agent.Executor.Gate.{Config, ensure_effective_policy_allows}
use hub_kubernetes_agent.Executor.Gate.Quiet.{
  IsQuiet, quiet_rules, ensure_effective_policy_allows-IsQuiet, Keeps-read, return_error-Keeps,
}
use hub_kubernetes_agent.Executor.Gate.Authorized.{
  IsAuthorized, ensure_effective_policy_allows-IsAuthorized,
}
use hub_kubernetes_agent.Executor.Resources.Live.{collect_preflight_warnings-IsQuiet}
use hub_kubernetes_agent.Executor.Policy.{EffectivePolicy, update_agent_namespace}
use hub_kubernetes_agent.Executor.Image.{validate_update_agent_image}
use hub_kubernetes_agent.Executor.Image.Valid.{
  IsAllowedImage, validate_update_agent_image-IsAllowedImage,
}
use hub_kubernetes_agent.Executor.Update.{
  update_agent_daemonset, image_patch, self_update, update_agent, update_agent_error,
  update_agent_apply, update_agent_report, patch_failed, update_agent_image, checked, get_daemonset,
  patch_image,
}

abbrev update : String → Event
update image =
    patch_workload "DaemonSet" update_agent_namespace update_agent_daemonset (image_patch image)
      false

-- What follows reads and dry runs alone, or those and one live patch, the last request of all.
data IsUpdated (image : String) : History → Type 0 where
  untouched : (h : History) → IsQuiet h → IsUpdated image h
  updated : (h : History) → IsQuiet h → IsUpdated image (update image ∷ h)

-- How an update ends: the cluster is as before, or one live request was sent, the last of all,
-- which sets the image of the agent's own DaemonSet and nothing else. For that the policies that
-- were listed admit the update, and the image is the one that was asked for, of the allowed registry.
pub data UpdateOutcome (cluster : Cluster) (cfg : Config) (spec : UpdateAgentSpec) (h : History)
    : History → Type 0 where
  nothing_changed : (h' : History) → IsQuiet h' → UpdateOutcome cluster cfg spec h h'
  image_set :
      (h' : History)
      → IsQuiet h'
      → IsAuthorized cluster cfg update_agent_namespace "update_agent" none none h
      → IsAllowedImage (trim spec.image)
      → UpdateOutcome cluster cfg spec h (update (trim spec.image) ∷ h')

module _ (show : ℕ → String) (cluster : Cluster) (cfg : Config) (command_id : String) where
  pub self_update-IsQuiet :
      (spec : SelfUpdateSpec) → Keeps IsQuiet (self_update show cluster cfg command_id spec)
  unfolding self_update
  self_update-IsQuiet spec =
      search (quiet_rules, ensure_effective_policy_allows-IsQuiet, return_error-Keeps)

  update_agent_error-Keeps :
      {A : Type 0} {P : History → Type 0} (message : String)
      → Keeps P (update_agent_error show cluster cfg command_id {A = A} message)
  unfolding update_agent_error
  update_agent_error-Keeps message = record { at = λ h k. k }

  update_agent_error_ends :
      {A : Type 0} (message : String) (h : History)
      → (r : Early) × ((update_agent_error show cluster cfg command_id {A = A} message h).0 ≡ err r)
  unfolding update_agent_error
  update_agent_error_ends message h = (_, refl)

  checked-Keeps :
      {P : History → Type 0} (outcome : Result String String)
      → Keeps P (checked show cluster cfg command_id outcome)
  unfolding checked recover
  checked-Keeps (ok value) = record { at = λ h k. k }
  checked-Keeps (err e) = update_agent_error-Keeps e

  get_daemonset-IsQuiet : Keeps IsQuiet (get_daemonset show cluster cfg command_id)
  unfolding get_daemonset
  get_daemonset-IsQuiet = record { at = λ h k. (refl, k) }

  dry_run-IsQuiet :
      (image : String) → Keeps IsQuiet (patch_image show cluster cfg command_id image true)
  unfolding patch_image
  dry_run-IsQuiet image = record { at = λ h k. (refl, k) }

  patch_image-IsUpdated :
      (image : String) (h : History)
      → IsQuiet h
      → IsUpdated image (patch_image show cluster cfg command_id image false h).1
  unfolding patch_image
  patch_image-IsUpdated image h quiet = updated h quiet

  update_agent_report-Keeps :
      {P : History → Type 0} (image before_image : String) (warnings : List String)
      (after : Workload)
      → Keeps P (update_agent_report show cluster cfg command_id image before_image warnings after)
  unfolding update_agent_report
  update_agent_report-Keeps image before_image warnings after =
      search (keeps_rules, Keeps-read, checked-Keeps)

  patch_failed-Keeps :
      {P : History → Type 0} (e : String) → Keeps P (patch_failed show cluster cfg command_id e)
  unfolding patch_failed
  patch_failed-Keeps e = update_agent_error-Keeps _

  update_agent_apply-Leads :
      (image before_image : String) (warnings : List String)
      → Leads IsQuiet
          (IsUpdated image)
          (update_agent_apply show cluster cfg command_id image before_image warnings)
  unfolding update_agent_apply
  update_agent_apply-Leads image before_image warnings = record {
    at = λ h quiet.
        bind_after {P = IsUpdated image}
          (or_else (patch_image show cluster cfg command_id image false)
            (patch_failed show cluster cfg command_id))
          (update_agent_report show cluster cfg command_id image before_image warnings) h
          (update_agent_report-Keeps image before_image warnings)
          (or_else_after {P = IsUpdated image} (patch_image show cluster cfg command_id image false)
            (patch_failed show cluster cfg command_id) h patch_failed-Keeps
            (patch_image-IsUpdated image h quiet));
  }

  update_agent_image-Leads :
      (image : String)
      → Leads IsQuiet (IsUpdated image) (update_agent_image show cluster cfg command_id image)
  unfolding update_agent_image
  update_agent_image-Leads image =
      search
        (
          Leads-bind, untouched, quiet_rules, get_daemonset-IsQuiet, dry_run-IsQuiet, checked-Keeps,
          update_agent_error-Keeps, collect_preflight_warnings-IsQuiet, update_agent_apply-Leads,
        )
        depth 20

  updated-UpdateOutcome :
      (spec : UpdateAgentSpec) (h h' : History)
      → IsAuthorized cluster cfg update_agent_namespace "update_agent" none none h
      → IsAllowedImage (trim spec.image)
      → IsUpdated (trim spec.image) h'
      → UpdateOutcome cluster cfg spec h h'
  updated-UpdateOutcome spec h _ authorized allowed (untouched h' quiet) = nothing_changed h' quiet
  updated-UpdateOutcome spec h _ authorized allowed (updated h' quiet) =
      image_set h' quiet authorized allowed

  -- What follows the policy check.
  validated-UpdateOutcome :
      (spec : UpdateAgentSpec) (h h' : History)
      → IsAuthorized cluster cfg update_agent_namespace "update_agent" none none h
      → IsQuiet h'
      → UpdateOutcome cluster cfg spec h
          ((checked show cluster cfg command_id (validate_update_agent_image spec.image)
              >>= update_agent_image show cluster cfg command_id)
            h').1
  unfolding ◌>>=◌ checked update_agent_error continue
  validated-UpdateOutcome spec h h' authorized quiet =
      elim (Result-cases (validate_update_agent_image spec.image)) [
        | inr (e, invalid) ↦ rw (invalid, recover, continue) (nothing_changed h' quiet)
        | inl (image, valid) ↦
            let (same, allowed) =
              validate_update_agent_image-IsAllowedImage spec.image image valid in
            rw (valid, recover, continue)
              (updated-UpdateOutcome spec h _ authorized (subst IsAllowedImage same allowed) (
                subst (λ i. IsUpdated i (update_agent_image show cluster cfg command_id image h').1)
                  same ((update_agent_image-Leads image).at h' quiet)))
      ]

  -- Whatever the cluster answers, an update of the agent that starts after reads and dry runs alone
  -- either sends reads and dry runs alone, or sends one live request, the last of all, which sets the
  -- image of the agent's own DaemonSet, and nothing else. The latter only if a policy that was then
  -- listed admits the update, and to the image that was asked for, which is of the allowed registry.
  pub update_agent-UpdateOutcome :
      (spec : UpdateAgentSpec) (h : History)
      → IsQuiet h
      → UpdateOutcome cluster cfg spec h (update_agent show cluster cfg command_id spec h).1
  unfolding update_agent
  update_agent-UpdateOutcome spec h quiet =
      let check =
        ensure_effective_policy_allows cluster cfg update_agent_namespace "update_agent" none
          none in
      let rest = λ (policy : EffectivePolicy).
        (checked show cluster cfg command_id (validate_update_agent_image spec.image)
          >>= update_agent_image show cluster cfg command_id) in
      elim (or_else_split IsQuiet check (update_agent_error show cluster cfg command_id) rest h
        (ensure_effective_policy_allows-IsQuiet cluster cfg update_agent_namespace "update_agent"
          none none)
        update_agent_error-Keeps update_agent_error_ends quiet) [
          | inl refused ↦ nothing_changed _ refused
          | inr (policy, passed, quiet', same) ↦
              let authorized =
                ensure_effective_policy_allows-IsAuthorized cluster cfg update_agent_namespace
                  "update_agent" none none h policy passed in
              subst (λ p. UpdateOutcome cluster cfg spec h p.1) (sym same)
                (validated-UpdateOutcome spec h (check h).1 authorized quiet')
        ]
