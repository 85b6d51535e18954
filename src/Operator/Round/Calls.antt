-- ===== src/Operator/Round/Calls.antt =====
-- operator.rs: what a round asks for, errors or not.
use hub_kubernetes_agent.Prelude.{
  ℕ, ◌≡◌, refl, ◌∙◌, String, Option, none, some, List, [], ◌∷◌, ◌++◌, Bool, true, false, ◌&&◌,
  is_empty, Option-cases, inl, inr, arith, Result, ok, err,
}
use hub_kubernetes_agent.Exec.{continue}
use hub_kubernetes_agent.Model.Objects.{Namespace}
use hub_kubernetes_agent.Model.Policy.{ActionPolicy}
use hub_kubernetes_agent.Operator.Status.{BindingReconcileOutcome}
use hub_kubernetes_agent.Operator.Round.{
  Call, Calls, Server, list_namespaces, list_policies, binding_call, binding_errors, outcome_of,
  errors_of, status_call, patch_statuses, reconcile_action_policies,
}

-- The calls of a list, each item that has one.
pub requested : {A : Type 0} → (A → Option Call) → List A → Calls → Calls
requested call_of [] calls = calls
requested call_of (item ∷ rest) calls = elim (call_of item) [
  | none ↦ requested call_of rest calls
  | some call ↦ requested call_of rest (call ∷ calls)
]

abbrev pub is_ok : Result String (Unit {0}) → Bool
is_ok (ok done) = true
is_ok (err message) = false

-- All of those calls succeed.
pub all_done : {A : Type 0} → Server → (A → Option Call) → List A → Calls → Bool
all_done server call_of [] calls = true
all_done server call_of (item ∷ rest) calls = elim (call_of item) [
  | none ↦ all_done server call_of rest calls
  | some call ↦ is_ok (server.done call calls) && all_done server call_of rest (call ∷ calls)
]

split :
    (errors : List String) (answer : Result String (Unit {0})) (others : Bool)
    → is_empty (errors ++ errors_of answer) && others ≡ is_empty errors && (is_ok answer && others)
split [] (ok done) others = refl
split [] (err message) others = refl
split (e ∷ es) answer others = refl

module _ (server : Server) (excluded : List String) where
  -- What the loop over the namespaces comes to.
  record IsReconciled (namespaces : List Namespace) (errors : List String) (calls : Calls)
      : Type 0 where
    after : List String
    result :
        binding_errors server excluded namespaces errors calls
        ≡ (ok after, requested (binding_call excluded) namespaces calls)
    granted :
        is_empty after ≡ is_empty errors && all_done server (binding_call excluded) namespaces calls

  binding_errors-IsReconciled :
      (namespaces : List Namespace) (errors : List String) (calls : Calls)
      → IsReconciled namespaces errors calls
  unfolding binding_errors requested all_done
  binding_errors-IsReconciled [] errors calls = record {
    after = errors;
    result = refl;
    granted = ground arith;
  }
  binding_errors-IsReconciled (namespace ∷ rest) errors calls =
      elim (Option-cases (binding_call excluded namespace)) [
        | inl a ↦
            let later = binding_errors-IsReconciled rest errors calls in
            record {
              after = later.after;
              result = rw (a, binding_errors, requested) later.result;
              granted = rw (a, all_done) later.granted;
            }
        | inr (call, a) ↦
            let answer = server.done call calls in
            let later =
              binding_errors-IsReconciled rest (errors ++ errors_of answer) (call ∷ calls) in
            record {
              after = later.after;
              result = rw (a, binding_errors, requested) later.result;
              granted = rw (a, all_done) (later.granted ∙ split errors answer _);
            }
      ]

module _ (server : Server) (namespaces : List Namespace) (excluded : List String)
    (outcome : BindingReconcileOutcome) (now stale_after : ℕ) where
  patch_statuses-requested :
      (policies : List ActionPolicy) (calls : Calls)
      → patch_statuses server namespaces excluded outcome now stale_after policies calls ≡ (
        ok tt,
        requested (status_call server namespaces excluded outcome now stale_after) policies calls,
      )
  unfolding patch_statuses requested
  patch_statuses-requested [] calls = refl
  patch_statuses-requested (policy ∷ rest) calls =
      elim (Option-cases (status_call server namespaces excluded outcome now stale_after policy)) [
        | inl a ↦ rw (a, patch_statuses, requested) (patch_statuses-requested rest calls)
        | inr (call, a) ↦
            rw (a, patch_statuses, requested) (patch_statuses-requested rest (call ∷ calls))
      ]

-- If the namespaces and the policies are listed, a round asks, after the two listings, for one
-- binding call for each named namespace and then for one status of each named policy, whatever
-- calls fail; and the statuses are written for an outcome that grants the permission exactly when
-- every binding call has succeeded.
pub reconcile_action_policies-requested :
    (server : Server) (excluded : List String) (namespaces : List Namespace)
    (policies : List ActionPolicy) (now stale_after : ℕ) (calls : Calls)
    → server.namespaces calls ≡ ok namespaces
    → server.policies (list_namespaces ∷ calls) ≡ ok policies
    → let listed = list_policies ∷ list_namespaces ∷ calls in
      (outcome : BindingReconcileOutcome) × (reconcile_action_policies server now stale_after
          excluded calls
        ≡ (
          ok tt,
          requested
              (status_call server namespaces excluded outcome now stale_after)
              policies
              (requested (binding_call excluded) namespaces listed),
        ))
      × (outcome.permission_granted ≡ all_done server (binding_call excluded) namespaces listed)
unfolding reconcile_action_policies outcome_of
reconcile_action_policies-requested server excluded namespaces policies now stale_after calls n p =
    let listed = list_policies ∷ list_namespaces ∷ calls in
    let bound = binding_errors-IsReconciled server excluded namespaces [] listed in
    let outcome = outcome_of bound.after in
    (
      outcome,
      rw (n, continue)
          (rw (p, continue)
            (rw (bound.result, continue)
              (patch_statuses-requested server namespaces excluded outcome now stale_after policies
                (requested (binding_call excluded) namespaces listed)))),
      bound.granted,
    )
