-- ===== src/Exec/Leads.antt =====
-- From one condition to a weaker one: steps that keep the first, and then one that ends in the second.
use hub_kubernetes_agent.Prelude.{◌≡◌, refl, Result, ok, err, Result-cases, inl, inr, ◌⊎◌}
use hub_kubernetes_agent.Exec.{Exec, continue, ◌>>=◌, recover, or_else}
use hub_kubernetes_agent.Exec.Keeps.{Keeps}

-- Started in `P`, `m` ends in `Q`.
pub record Leads {S E A : Type 0} (P Q : S → Type 0) (m : Exec S E A) : Type 0 where
  pub at : (s : S) → P s → Q (m s).1

module _ {S E A B : Type 0} {P Q : S → Type 0} where
  Leads-continue :
      (r : Result E A) (f : A → Exec S E B) (s : S)
      → ((t : S) → P t → Q t)
      → ((a : A) → Leads P Q (f a))
      → P s
      → Q (continue r f s).1
  unfolding continue
  Leads-continue (ok a) f s weaker lf h = (lf a).at s h
  Leads-continue (err e) f s weaker lf h = weaker s h

  pub Leads-bind :
      (m : Exec S E A) (f : A → Exec S E B)
      → ((t : S) → P t → Q t)
      → Keeps P m
      → ((a : A) → Leads P Q (f a))
      → Leads P Q (m >>= f)
  unfolding ◌>>=◌
  Leads-bind m f weaker km lf = record {
    at = λ s h. Leads-continue (m s).0 f (m s).1 weaker lf (km.at s h);
  }

module _ {S E F A B : Type 0} (P : S → Type 0) where
  -- A step whose error returns early: either it returns, and the rest follows, or all ends in `P`.
  pub or_else_split :
      (m : Exec S E A) (f : E → Exec S F A) (g : A → Exec S F B) (s : S)
      → Keeps P m
      → ((e : E) → Keeps P (f e))
      → ((e : E) (t : S) → (r : F) × ((f e t).0 ≡ err r))
      → P s
      → P ((or_else m f >>= g) s).1
        ⊎ ((a : A) × ((m s).0 ≡ ok a) × (P (m s).1) × ((or_else m f >>= g) s ≡ g a (m s).1))
  unfolding or_else ◌>>=◌
  or_else_split m f g s km kf ends h = elim (Result-cases (m s).0) [
    | inl (a, e) ↦ inr (a, e, km.at s h, rw (e, recover, continue) refl)
    | inr (e, q) ↦
        let (r, ended) = ends e (m s).1 in
        inl (rw (q, recover, ended, continue) ((kf e).at (m s).1 (km.at s h)))
  ]
