-- ===== src/Executor/Drain/Live.antt =====
-- executor.rs: when a drain changes the cluster.
use hub_kubernetes_agent.Prelude.{
  ℕ, ◌≡◌, refl, ◌==◌, String, Option, List, ◌∷◌, false, not, ◌&&◌, ◌<>◌, is_empty, trim, ok, arith,
}
use hub_kubernetes_agent.Exec.{Exec, lift, or_else, ◌>>=◌}
use hub_kubernetes_agent.Exec.Keeps.{Keeps, Keeps-lift}
use hub_kubernetes_agent.Exec.Escapes.{or_else_escape, bind_escape, if_escape}
use hub_kubernetes_agent.Model.Objects.{Pod}
use hub_kubernetes_agent.Model.Command.{DrainNodeSpec}
use hub_kubernetes_agent.Executor.Api.{Cluster, History, Early, request, get_node}
use hub_kubernetes_agent.Executor.Gate.{Config, ensure_cluster_action_allowed, return_simple_error}
use hub_kubernetes_agent.Executor.Gate.Quiet.{
  IsQuiet, quiet_rules, Keeps-request, ensure_cluster_action_allowed-IsQuiet,
  return_simple_error-Keeps,
}
use hub_kubernetes_agent.Executor.Gate.Authorized.{
  IsClusterAuthorized, ensure_cluster_action_allowed-IsAuthorized, return_simple_error_ends,
}
use hub_kubernetes_agent.Executor.Drain.Plan.{
  classify_pods_on_node, drain_timeout_duration, drain_delete_options,
}
use hub_kubernetes_agent.Executor.Drain.{list_node_pods, drain_named, drain_node}

-- What has been checked when a drain begins to change the cluster.
pub record IsDrainAllowed (cluster : Cluster) (cfg : Config) (spec : DrainNodeSpec) (h : History)
    : Type 0 where
  pub named : (trim spec.node_name == "") ≡ false
  pub authorized : IsClusterAuthorized cluster cfg "drain_node" h
  pub timeout : (seconds : ℕ) × (drain_timeout_duration spec ≡ ok seconds)
  pub grace : (period : Option ℕ) × (drain_delete_options spec ≡ ok period)
  -- the pods that were listed, and that without force none of them is unmanaged
  pub listing : History
  pub pods : List Pod
  pub listed : cluster.pods (trim spec.node_name) listing ≡ ok pods
  pub managed :
      (not spec.force
        && not (is_empty (classify_pods_on_node (trim spec.node_name) pods spec.force).unmanaged))
      ≡ false

module _ (cluster : Cluster) (cfg : Config) (command_id : String) (spec : DrainNodeSpec)
    (node_name : String) where
  list_node_pods-IsQuiet :
      (failure : String)
      → Keeps IsQuiet (list_node_pods cluster cfg command_id spec node_name failure)
  unfolding list_node_pods
  list_node_pods-IsQuiet failure = search (quiet_rules, return_simple_error-Keeps)

  pub list_node_pods-listed :
      (failure : String) (h : History) (pods : List Pod)
      → (list_node_pods cluster cfg command_id spec node_name failure h).0 ≡ ok pods
      → cluster.pods node_name h ≡ ok pods
  unfolding list_node_pods return_simple_error
  list_node_pods-listed failure h pods e = ground arith

-- A step that returns a plain error early.
simple_escape :
    {A B : Type 0} (cluster : Cluster) (cfg : Config) (command_id : String) (wrap : String → String)
    (m : Exec History String A) (g : A → Exec History Early B) (h : History)
    → Keeps IsQuiet m
    → IsQuiet h
    → ¬ IsQuiet ((or_else m (λ e. return_simple_error cluster cfg command_id (wrap e)) >>= g) h).1
    → (a : A) × ((m h).0 ≡ ok a) × (IsQuiet (m h).1) × (¬ IsQuiet (g a (m h).1).1)
simple_escape cluster cfg command_id wrap m g h km quiet lost =
    or_else_escape IsQuiet m (λ e. return_simple_error cluster cfg command_id (wrap e)) g h km
      (λ e. return_simple_error-Keeps cluster cfg command_id (wrap e))
      (λ e. return_simple_error_ends cluster cfg command_id (wrap e)) quiet lost

-- A drain that was handled after reads and dry runs alone has changed the cluster only if the node
-- is named, a policy that was then listed allows `drain_node`, the timeout and the grace period are
-- in range, and of the pods that were then listed on the node none is unmanaged, or force was given.
pub drain_node-IsDrainAllowed :
    (cluster : Cluster) (cfg : Config) (command_id : String) (fuel : ℕ) (spec : DrainNodeSpec)
    (h : History)
    → IsQuiet h
    → ¬ IsQuiet (drain_node cluster cfg command_id fuel spec h).1
    → IsDrainAllowed cluster cfg spec h
unfolding drain_node drain_named lift request
drain_node-IsDrainAllowed cluster cfg command_id fuel spec h quiet changed =
    let name = trim spec.node_name in
    let (named, lost₀) =
      if_escape IsQuiet (name == "") _ _ h (return_simple_error-Keeps cluster cfg command_id _)
        quiet changed in
    let (e, passed, quiet₁, lost₁) =
      simple_escape cluster cfg command_id (λ e. e)
        (ensure_cluster_action_allowed cluster cfg "drain_node") _ h
        (ensure_cluster_action_allowed-IsQuiet cluster cfg "drain_node") quiet lost₀ in
    let h₁ = (ensure_cluster_action_allowed cluster cfg "drain_node" h).1 in
    let (seconds, timed, quiet₂, lost₂) =
      simple_escape cluster cfg command_id (λ e. e) (lift (drain_timeout_duration spec)) _ h₁
        (Keeps-lift (drain_timeout_duration spec)) quiet₁ lost₁ in
    let (period, graced, quiet₃, lost₃) =
      simple_escape cluster cfg command_id (λ e. e) (lift (drain_delete_options spec)) _ h₁
        (Keeps-lift (drain_delete_options spec)) quiet₂ lost₂ in
    let (node, found, quiet₄, lost₄) =
      simple_escape cluster cfg command_id (λ e. "failed to get Node " <> name <> ": " <> e)
        (request (get_node name) (cluster.node name)) _ h₁
        (Keeps-request (get_node name) (cluster.node name) refl) quiet₃ lost₃ in
    let h₂ = get_node name ∷ h₁ in
    let failure : String = "failed to list Pods for drain " in
    let (pods, listed, quiet₅, lost₅) =
      bind_escape IsQuiet (list_node_pods cluster cfg command_id spec name failure) _ h₂
        (list_node_pods-IsQuiet cluster cfg command_id spec name failure) quiet₄ lost₄ in
    let (managed, lost₆) =
      if_escape IsQuiet _ _ _ (list_node_pods cluster cfg command_id spec name failure h₂).1
        (return_simple_error-Keeps cluster cfg command_id _) quiet₅ lost₅ in
    record {
      named = named;
      authorized = ensure_cluster_action_allowed-IsAuthorized cluster cfg "drain_node" h e passed;
      timeout = (seconds, timed);
      grace = (period, graced);
      listing = h₂;
      pods = pods;
      listed = list_node_pods-listed cluster cfg command_id spec name failure h₂ pods listed;
      managed = managed;
    }
