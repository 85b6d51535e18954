-- ===== src/Lifecycle/Labels/Requested.antt =====
-- operator_lifecycle.rs: what the reconciliation of the labels asks for.
use hub_kubernetes_agent.Prelude.{
  ◌≡◌, refl, subst, sym, String, Option, none, some, List, [], ◌∷◌, ◌++◌, Bool, Result, ok, err,
  Result-cases, Option-cases, inl, inr,
}
use hub_kubernetes_agent.Exec.{continue, ◌>>◌}
use hub_kubernetes_agent.Model.Objects.{Namespace}
use hub_kubernetes_agent.Lifecycle.Api.{Request, list_namespaces, Requests, Server}
use hub_kubernetes_agent.Lifecycle.Labels.{
  namespace_request, change_label, change_labels, reconcile_action_mode_namespaces,
}

-- One request more, if there is one.
abbrev pub and_request : Option Request → Requests → Requests
and_request none requests = requests
and_request (some request) requests = request ∷ requests

-- The requests of namespaces, one after the other, the newest first.
abbrev pub requests_for : Bool → List String → List Namespace → Requests → Requests
requests_for enabled excluded [] requests = requests
requests_for enabled excluded (namespace ∷ rest) requests =
    requests_for enabled excluded rest
      (and_request (namespace_request enabled excluded namespace) requests)

-- The request of a namespace, if any, was answered without an error.
abbrev pub WasDone : Server → Option Request → Requests → Type 0
WasDone server none requests = Unit
WasDone server (some request) requests = server.done request requests ≡ ok tt

-- So were the requests of all these namespaces, each after those in front of it.
abbrev pub AllDone : Server → Bool → List String → List Namespace → Requests → Type 0
AllDone server enabled excluded [] requests = Unit
AllDone server enabled excluded (namespace ∷ rest) requests =
    let request = namespace_request enabled excluded namespace in
    WasDone server request requests
    × AllDone server enabled excluded rest (and_request request requests)

-- How the loop ends: with all requests answered; or with the first that the server refused, whose
-- error it returns.
pub data LoopEnd (server : Server) (enabled : Bool) (excluded : List String) (requests : Requests)
    : List Namespace → Result String (Unit {0}) → Requests → Type 0 where
  all_done :
      (namespaces : List Namespace)
      → AllDone server enabled excluded namespaces requests
      → LoopEnd server enabled excluded requests namespaces
          (ok tt)
          (requests_for enabled excluded namespaces requests)
  refused :
      (before : List Namespace) (namespace : Namespace) (left : List Namespace) (request : Request)
      (e : String)
      → AllDone server enabled excluded before requests
      → namespace_request enabled excluded namespace ≡ some request
      → server.done request (requests_for enabled excluded before requests) ≡ err e
      → LoopEnd server enabled excluded requests
          (before ++ (namespace ∷ left))
          (err e)
          (request ∷ requests_for enabled excluded before requests)

-- How the reconciliation ends.
pub data LabelsEnd (server : Server) (enabled : Bool) (excluded : List String) (requests : Requests)
    : Result String (Unit {0}) → Requests → Type 0 where
  unlisted :
      (e : String)
      → server.namespaces requests ≡ err e
      → LabelsEnd server enabled excluded requests (err e) (list_namespaces ∷ requests)
  listed :
      (namespaces : List Namespace) (result : Result String (Unit {0})) (final : Requests)
      → server.namespaces requests ≡ ok namespaces
      → LoopEnd server enabled excluded (list_namespaces ∷ requests) namespaces result final
      → LabelsEnd server enabled excluded requests result final

module _ (server : Server) (enabled : Bool) (excluded : List String) where
  LoopEnd-next :
      (namespace : Namespace) (requests : Requests)
      → WasDone server (namespace_request enabled excluded namespace) requests
      → (rest : List Namespace) (result : Result String (Unit {0})) (final : Requests)
      → LoopEnd server enabled excluded
          (and_request (namespace_request enabled excluded namespace) requests)
          rest
          result
          final
      → LoopEnd server enabled excluded requests (namespace ∷ rest) result final
  LoopEnd-next namespace requests done _ _ _ (all_done rest later) =
      all_done (namespace ∷ rest) (done, later)
  LoopEnd-next namespace requests done _ _ _
        (refused before failing left request e later asked refusal) =
      refused (namespace ∷ before) failing left request e (done, later) asked refusal

  LoopEnd-after :
      (namespace : Namespace) (request : Option Request) (requests : Requests)
      → namespace_request enabled excluded namespace ≡ request
      → WasDone server request requests
      → (rest : List Namespace) (result : Result String (Unit {0})) (final : Requests)
      → LoopEnd server enabled excluded (and_request request requests) rest result final
      → LoopEnd server enabled excluded requests (namespace ∷ rest) result final
  LoopEnd-after namespace request requests asked done rest result final later =
      LoopEnd-next namespace requests (subst (λ r. WasDone server r requests) (sym asked) done) rest
        result final
        (subst (λ r. LoopEnd server enabled excluded (and_request r requests) rest result final)
          (sym asked) later)

  -- What follows the answer to a namespace's request.
  answered-LoopEnd :
      (namespace : Namespace) (rest : List Namespace) (requests : Requests) (request : Request)
      → namespace_request enabled excluded namespace ≡ some request
      → (let (result, final) = change_labels server enabled excluded rest (request ∷ requests) in
          LoopEnd server enabled excluded (request ∷ requests) rest result final)
      → (first : Result String (Unit {0})) → server.done request requests ≡ first
      → let (result, final) =
          continue first (λ _. change_labels server enabled excluded rest) (request ∷ requests) in
        LoopEnd server enabled excluded requests (namespace ∷ rest) result final
  unfolding continue
  answered-LoopEnd namespace rest requests request asked later (ok done) answer =
      let run = change_labels server enabled excluded rest (request ∷ requests) in
      LoopEnd-after namespace (some request) requests asked answer rest run.0 run.1 later
  answered-LoopEnd namespace rest requests request asked later (err e) answer =
      refused [] namespace rest request e tt asked answer

  change_labels-LoopEnd :
      (namespaces : List Namespace) (requests : Requests)
      → let (result, final) = change_labels server enabled excluded namespaces requests in
        LoopEnd server enabled excluded requests namespaces result final
  unfolding change_labels change_label ◌>>◌ continue
  change_labels-LoopEnd [] requests = all_done [] tt
  change_labels-LoopEnd (namespace ∷ rest) requests =
      elim (Option-cases (namespace_request enabled excluded namespace)) [
        | inl unchanged ↦
            let run = change_labels server enabled excluded rest requests in
            rw (unchanged, change_labels)
              (LoopEnd-after namespace none requests unchanged tt rest run.0 run.1
                (change_labels-LoopEnd rest requests))
        | inr (request, asked) ↦
            rw (asked, change_labels)
              (answered-LoopEnd namespace rest requests request asked
                (change_labels-LoopEnd rest (request ∷ requests)) (server.done request requests)
                refl)
      ]

  -- On every path: if the namespaces are not listed, it fails with that error and asks no more. If
  -- they are, one request follows for each of them that needs a change, in their order: either the
  -- server does all of them and the reconciliation succeeds, or it fails with the error of the first
  -- that the server refuses, which is the last that is sent.
  pub reconcile_action_mode_namespaces-LabelsEnd :
      (requests : Requests)
      → let (result, final) = reconcile_action_mode_namespaces server enabled excluded requests in
        LabelsEnd server enabled excluded requests result final
  unfolding reconcile_action_mode_namespaces continue
  reconcile_action_mode_namespaces-LabelsEnd requests =
      elim (Result-cases (server.namespaces requests)) [
        | inl (namespaces, known) ↦
            rw (known, reconcile_action_mode_namespaces)
              (listed namespaces _ _ known
                (change_labels-LoopEnd namespaces (list_namespaces ∷ requests)))
        | inr (e, failed) ↦ rw (failed, reconcile_action_mode_namespaces) (unlisted e failed)
      ]
