-- ===== src/Examples/Rounds.antt =====
-- A round of the operator at the small cluster.
use hub_kubernetes_agent.Prelude.{◌≡◌, refl, String, [], ◌∷◌, Result, ok, err}
use hub_kubernetes_agent.Operator.Status.{BindingReconcileOutcome}
use hub_kubernetes_agent.Operator.Round.{
  Call, Calls, Server, list_namespaces, list_policies, remove, binding_call, status_call,
  reconcile_action_policies,
}
use hub_kubernetes_agent.Operator.Round.Calls.{
  requested, all_done, reconcile_action_policies-requested,
}
use hub_kubernetes_agent.Examples.Data.{namespaces, excluded, policies}

-- The removal of a binding fails.
abbrev answer : Call → Calls → Result String (Unit {0})
answer (remove name) calls = err "delete action RoleBinding"
answer call calls = ok tt

abbrev server : Server
server = record {
  namespaces = λ calls. ok namespaces;
  policies = λ calls. ok policies;
  done = answer;
}

reconcile_action_policies-requested_example :
    (outcome : BindingReconcileOutcome) × (reconcile_action_policies server 40_000 90_000 excluded
        []
      ≡ (
        ok tt,
        requested
            (status_call server namespaces excluded outcome 40_000 90_000)
            policies
            (requested (binding_call excluded) namespaces (list_policies ∷ list_namespaces ∷ [])),
      ))
    × (outcome.permission_granted
        ≡ all_done server (binding_call excluded) namespaces (list_policies ∷ list_namespaces ∷ []))
reconcile_action_policies-requested_example =
    reconcile_action_policies-requested server excluded namespaces policies 40_000 90_000 [] refl
      refl
