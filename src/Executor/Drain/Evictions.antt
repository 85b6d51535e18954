-- ===== src/Executor/Drain/Evictions.antt =====
-- executor.rs: which pods a drain evicts.
use hub_kubernetes_agent.Prelude.{
  ◌≡◌, refl, String, List, [], ◌∷◌, Memᴰ, Bool, true, false, is_empty, is_text, contains, inl, inr,
  ◌⊎◌, arith, All,
}
use hub_kubernetes_agent.Model.Objects.{Pod}
use hub_kubernetes_agent.Executor.Drain.Plan.{
  Classified, classify_pod, classify_pods_on_node, pod_is_mirror, pod_owner_kinds, namespace_of,
  pod_name_of,
}

-- The pod may be evicted: it is on the node, is neither a mirror pod nor a DaemonSet's, and has an
-- owner unless force was given.
pub record IsEvictable (node_name : String) (force : Bool) (pod : Pod) : Type 0 where
  pub on_node : is_text pod.node_name node_name ≡ true
  pub not_mirror : pod_is_mirror pod ≡ false
  pub not_daemonset : contains (pod_owner_kinds pod) "DaemonSet" ≡ false
  pub managed : (force ≡ true) ⊎ (is_empty (pod_owner_kinds pod) ≡ false)

-- One of the pods goes by this namespace and name, and may be evicted.
pub record IsPlanned (node_name : String) (force : Bool) (pods : List Pod) (namespace name : String)
    : Type 0 where
  pub pod : Pod
  pub listed : Memᴰ pod pods
  pub in_namespace : namespace_of pod ≡ namespace
  pub of_name : pod_name_of pod ≡ name
  pub evictable : IsEvictable node_name force pod

IsPlanned-cons :
    {node_name : String} {force : Bool} (first : Pod) {pods : List Pod} {namespace name : String}
    → IsPlanned node_name force pods namespace name
    → IsPlanned node_name force (first ∷ pods) namespace name
IsPlanned-cons first p = record {
  pod = p.pod;
  listed = Memᴰ.tail p.listed;
  in_namespace = p.in_namespace;
  of_name = p.of_name;
  evictable = p.evictable;
}

-- What a round adds to the pods that are to go.
classify_pod-drainable :
    (node_name : String) (force : Bool) (pod : Pod) (rest : Classified)
    → ((classify_pod node_name force pod rest).drainable ≡ rest.drainable)
      ⊎ (((classify_pod node_name force pod rest).drainable
            ≡ (namespace_of pod, pod_name_of pod) ∷ rest.drainable)
          × IsEvictable node_name force pod)
unfolding classify_pod
classify_pod-drainable node_name force pod rest = ground arith

pub All-rest :
    {A : Type 0} (P Q : A → Type 0) (xs : List A) → ((x : A) → P x → Q x) → All P xs → All Q xs
All-rest P Q [] f h = tt
All-rest P Q (x ∷ xs) f (p, h) = (f x p, All-rest P Q xs f h)

-- Every pod that a drain plans to evict is one of the listed pods, on the node, neither a mirror pod
-- nor a DaemonSet's, and has an owner unless force was given.
pub classify_pods_on_node-IsPlanned :
    (node_name : String) (pods : List Pod) (force : Bool)
    → All
        (λ p. IsPlanned node_name force pods p.0 p.1)
        (classify_pods_on_node node_name pods force).drainable
unfolding classify_pods_on_node
classify_pods_on_node-IsPlanned node_name [] force = tt
classify_pods_on_node-IsPlanned node_name (pod ∷ pods) force =
    let rest = classify_pods_on_node node_name pods force in
    let later =
      All-rest (λ p. IsPlanned node_name force pods p.0 p.1)
        (λ p. IsPlanned node_name force (pod ∷ pods) p.0 p.1) rest.drainable
        (λ p. IsPlanned-cons pod) (classify_pods_on_node-IsPlanned node_name pods force) in
    elim (classify_pod-drainable node_name force pod rest) [
      | inl same ↦ rw same later
      | inr (more, ok') ↦ rw more (
        record {
          pod = pod;
          listed = Memᴰ.head refl;
          in_namespace = refl;
          of_name = refl;
          evictable = ok';
        },
        later,
      )
    ]
