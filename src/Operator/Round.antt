-- ===== src/Operator/Round.antt =====
-- operator.rs: a round of the operator, `reconcile_action_policies_with` with the reconciliation of
-- role bindings. What a round asks of the API server, or of the binding functions, is a call; the
-- answers may depend on all the calls so far.
pub mod Calls
use hub_kubernetes_agent.Prelude.{
  ℕ, String, Option, none, some, List, [], ◌∷◌, ◌++◌, Bool, if◌then◌else◌, is_empty, join, Result,
  ok, err,
}
use hub_kubernetes_agent.Exec.{Exec, pure, attempt, ◌>>=◌}
use hub_kubernetes_agent.Model.Objects.{Namespace}
use hub_kubernetes_agent.Model.Policy.{ActionPolicy, PolicyStatus}
use hub_kubernetes_agent.Operator.Namespaces.{is_eligible}
use hub_kubernetes_agent.Operator.Status.{BindingReconcileOutcome, build_policy_status}

pub data Call : Type 0 where
  list_namespaces : Call
  list_policies : Call
  ensure : String → Call
  remove : String → Call
  patch_status : String → PolicyStatus → Call

-- The newest call first.
abbrev pub Calls : Type 0
Calls = List Call

-- What answers the calls.
pub record Server : Type 0 where
  pub namespaces : Calls → Result String (List Namespace)
  pub policies : Calls → Result String (List ActionPolicy)
  pub done : Call → Calls → Result String (Unit {0})

unfoldable pub ask : {A : Type 0} → Call → (Calls → Result String A) → Exec Calls String A
ask call answer calls = (answer calls, call ∷ calls)

abbrev pub errors_of : Result String (Unit {0}) → List String
errors_of (ok done) = []
errors_of (err message) = message ∷ []

-- The call that a namespace takes; none where it has no name, and is passed over.
unfoldable pub binding_call : List String → Namespace → Option Call
binding_call excluded namespace = elim namespace.metadata.name [
  | none ↦ none
  | some name ↦ some (if is_eligible excluded name namespace then ensure name else remove name)
]

unfoldable pub outcome_of : List String → BindingReconcileOutcome
outcome_of errors = record {
  permission_granted = is_empty errors;
  reconciliation_error = if is_empty errors then none else some (join "; " errors);
}

module _ (server : Server) where
  unfoldable pub reconcile_binding : Call → Exec Calls String (Unit {0})
  unfolding ask
  reconcile_binding call = ask call (server.done call)

  -- The loop over the namespaces: an error is kept, and the loop goes on.
  unfoldable pub binding_errors :
      List String → List Namespace → List String → Exec Calls String (List String)
  unfolding reconcile_binding binding_call attempt pure ◌>>=◌
  binding_errors excluded [] errors = pure errors
  binding_errors excluded (namespace ∷ rest) errors = elim (binding_call excluded namespace) [
    | none ↦ binding_errors excluded rest errors
    | some call ↦ do
      answer ← attempt (reconcile_binding call)
      binding_errors excluded rest (errors ++ errors_of answer)
  ]

  unfoldable pub reconcile_action_role_bindings :
      List Namespace → List String → Exec Calls String BindingReconcileOutcome
  unfolding binding_errors outcome_of pure ◌>>=◌
  reconcile_action_role_bindings namespaces excluded = do
    errors ← binding_errors excluded namespaces []
    pure (outcome_of errors)

  module _ (namespaces : List Namespace) (excluded : List String)
      (outcome : BindingReconcileOutcome) (now_ms stale_after_ms : ℕ) where
    -- The call that a policy takes; none where it has no name, and is passed over.
    unfoldable pub status_call : ActionPolicy → Option Call
    status_call policy = elim policy.metadata.name [
      | none ↦ none
      | some name ↦ some (
          patch_status name
            (build_policy_status policy namespaces excluded outcome now_ms stale_after_ms))
    ]

    -- The loop over the policies: where a status cannot be written, the next one is.
    unfoldable pub patch_statuses : List ActionPolicy → Exec Calls String (Unit {0})
    unfolding ask status_call attempt pure ◌>>=◌
    patch_statuses [] = pure tt
    patch_statuses (policy ∷ rest) = elim (status_call policy) [
      | none ↦ patch_statuses rest
      | some call ↦ do answer ← attempt (ask call (server.done call)); patch_statuses rest
    ]

  unfoldable pub reconcile_action_policies : ℕ → ℕ → List String → Exec Calls String (Unit {0})
  unfolding ask reconcile_action_role_bindings patch_statuses ◌>>=◌
  reconcile_action_policies now_ms stale_after_ms excluded = do
    namespaces ← ask list_namespaces server.namespaces
    policies ← ask list_policies server.policies
    outcome ← reconcile_action_role_bindings namespaces excluded
    patch_statuses namespaces excluded outcome now_ms stale_after_ms policies
