-- ===== src/Executor/Policy/Loop.antt =====
-- executor.rs: the loop that selects a policy, at any way to judge one.
use hub_kubernetes_agent.Prelude.{
  ok-injective, ◌≡◌, refl, String, List, [], ◌∷◌, ◌++◌, Memᴰ, ok, subst, inl, inr, ◌⊎◌,
}
use hub_kubernetes_agent.Model.Policy.{ActionPolicy, PolicyStatus}
use hub_kubernetes_agent.Executor.Policy.{
  EffectivePolicy, Verdict, skip, reject, accept, select, name_of,
}

Verdict-cases :
    (v : Verdict)
    → (v ≡ skip) ⊎ (((r : String) × (v ≡ reject r)) ⊎ ((s : PolicyStatus) × (v ≡ accept s)))
Verdict-cases skip = inl refl
Verdict-cases (reject r) = inr (inl (r, refl))
Verdict-cases (accept s) = inr (inr (s, refl))

-- The policy is listed, and it was accepted by its round.
pub record IsSelected (verdict : ActionPolicy → Verdict) (policies : List ActionPolicy)
    (e : EffectivePolicy) : Type 0 where
  pub listed : Memᴰ e.policy policies
  pub named : e.name ≡ name_of e.policy
  pub accepted : verdict e.policy ≡ accept e.status

-- The loop, at any verdicts.
module _ (verdict : ActionPolicy → Verdict) (failure : List String → String) where
  pub select-IsSelected :
      (reasons : List String) (policies : List ActionPolicy) (e : EffectivePolicy)
      → select verdict failure reasons policies ≡ ok e
      → IsSelected verdict policies e
  unfolding select
  select-IsSelected reasons [] e h = cc
  select-IsSelected reasons (p ∷ rest) e h =
      let later = λ (s : IsSelected verdict rest e).
        let r : IsSelected verdict (p ∷ rest) e = record {
          listed = Memᴰ.tail s.listed;
          named = s.named;
          accepted = s.accepted;
        } in
        r in
      elim (Verdict-cases (verdict p)) [
        | inl q ↦ later (select-IsSelected reasons rest e (rw (q, select) at h))
        | inr (inl (r, q)) ↦
            later (select-IsSelected (reasons ++ r ∷ []) rest e (rw (q, select) at h))
        | inr (inr (s, q)) ↦
            let chosen : EffectivePolicy = record { name = name_of p; policy = p; status = s } in
            let same : chosen ≡ e = ok-injective (rw (q, select) at h) in
            subst (IsSelected verdict (p ∷ rest)) same
              (record { listed = Memᴰ.head refl; named = refl; accepted = q })
      ]

  -- A policy of the list that is accepted is enough.
  pub select-accepted :
      (reasons : List String) (policies : List ActionPolicy) (p : ActionPolicy) (s : PolicyStatus)
      → Memᴰ p policies
      → verdict p ≡ accept s
      → (e : EffectivePolicy) × (select verdict failure reasons policies ≡ ok e)
  unfolding select
  select-accepted reasons [] p s m h = elim m [ ]
  select-accepted reasons (q ∷ rest) p s (Memᴰ.head e) h =
      let found : verdict q ≡ accept s = cc in
      (record { name = name_of q; policy = q; status = s }, rw (found, select))
  select-accepted reasons (q ∷ rest) p s (Memᴰ.tail m) h = elim (Verdict-cases (verdict q)) [
    | inl a ↦ rw (a, select) (select-accepted reasons rest p s m h)
    | inr (inl (r, a)) ↦ rw (a, select) (select-accepted (reasons ++ r ∷ []) rest p s m h)
    | inr (inr (t, a)) ↦ (record { name = name_of q; policy = q; status = t }, rw (a, select))
  ]
