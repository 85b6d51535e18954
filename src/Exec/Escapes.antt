-- ===== src/Exec/Escapes.antt =====
-- What is known where an invariant was lost: the steps that keep it have succeeded.
use hub_kubernetes_agent.Prelude.{
  ◌≡◌, refl, Bool, true, false, if◌then◌else◌, ok, err, Result-cases, inl, inr,
}
use hub_kubernetes_agent.Exec.{Exec, continue, recover, or_else, ◌>>=◌}
use hub_kubernetes_agent.Exec.Keeps.{Keeps, bind_after, or_else_after}

module _ {S E A B : Type 0} (P : S → Type 0) where
  -- The first step keeps the invariant: then it returned, and the rest lost it.
  pub bind_escape :
      (m : Exec S E A) (f : A → Exec S E B) (s : S)
      → Keeps P m
      → P s
      → ¬ P ((m >>= f) s).1
      → (a : A) × ((m s).0 ≡ ok a) × (P (m s).1) × (¬ P (f a (m s).1).1)
  unfolding ◌>>=◌
  bind_escape m f s km h lost = elim (Result-cases (m s).0) [
    | inl (a, e) ↦ (a, e, km.at s h, rw (e, continue) at lost)
    | inr (e, q) ↦ absurd ((rw (q, continue) at lost) (km.at s h))
  ]

module _ {S E F A B : Type 0} (P : S → Type 0) where
  -- A step whose error returns early, without losing the invariant.
  pub or_else_escape :
      (m : Exec S E A) (f : E → Exec S F A) (g : A → Exec S F B) (s : S)
      → Keeps P m
      → ((e : E) → Keeps P (f e))
      → ((e : E) (t : S) → (r : F) × ((f e t).0 ≡ err r))
      → P s
      → ¬ P ((or_else m f >>= g) s).1
      → (a : A) × ((m s).0 ≡ ok a) × (P (m s).1) × (¬ P (g a (m s).1).1)
  unfolding or_else ◌>>=◌
  or_else_escape m f g s km kf ends h lost = elim (Result-cases (m s).0) [
    | inl (a, e) ↦ (a, e, km.at s h, rw (e, recover, continue) at lost)
    | inr (e, q) ↦
        let (r, ended) = ends e (m s).1 in
        absurd ((rw (q, recover, ended, continue) at lost) ((kf e).at (m s).1 (km.at s h)))
  ]

module _ {S E A : Type 0} (P : S → Type 0) where
  -- A guard whose branch keeps the invariant has not fired.
  pub if_escape :
      (b : Bool) (m n : Exec S E A) (s : S)
      → Keeps P m
      → P s
      → ¬ P ((if b then m else n) s).1
      → (b ≡ false) × (¬ P (n s).1)
  if_escape true m n s km h lost = absurd (lost (km.at s h))
  if_escape false m n s km h lost = (refl, lost)

module _ {S E A B : Type 0} (P : S → Type 0) where
  -- The rest keeps the invariant: the first step lost it.
  pub bind_lost :
      (m : Exec S E A) (f : A → Exec S E B) (s : S)
      → ((a : A) → Keeps P (f a))
      → ¬ P ((m >>= f) s).1
      → ¬ P (m s).1
  bind_lost m f s kf lost = λ h. lost (bind_after m f s kf h)

module _ {S E F A : Type 0} (P : S → Type 0) where
  -- What follows an error keeps the invariant: the step itself lost it.
  pub or_else_lost :
      (m : Exec S E A) (f : E → Exec S F A) (s : S)
      → ((e : E) → Keeps P (f e))
      → ¬ P (or_else m f s).1
      → ¬ P (m s).1
  or_else_lost m f s kf lost = λ h. lost (or_else_after m f s kf h)
