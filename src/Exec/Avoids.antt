-- ===== src/Exec/Avoids.antt =====
-- That such a function does not end in a given error, from a given state on.
use hub_kubernetes_agent.Prelude.{
  ◌≡◌, ◌≢◌, refl, ap, Bool, true, false, if◌then◌else◌, Result, ok, err,
}
use hub_kubernetes_agent.Exec.{Exec, pure, continue, ◌>>=◌, recover, or_else}

abbrev pub Avoids : {S E A : Type 0} → E → Exec S E A → S → Type 0
Avoids e m s = (m s).0 ≢ err e

pub ok_apart : {E A : Type 0} (e : E) (a : A) → ok a ≢ err e
ok_apart e a = λ h. cc

module _ {S E A : Type 0} (e : E) where
  pub pure-Avoids : (a : A) (s : S) → Avoids e (pure a) s
  unfolding pure
  pure-Avoids a s = λ h. cc

  pub if-Avoids :
      (test : Bool) (m n : Exec S E A) (s : S)
      → (test ≡ true → Avoids e m s)
      → (test ≡ false → Avoids e n s)
      → Avoids e (if test then m else n) s
  if-Avoids true m n s am an = am refl
  if-Avoids false m n s am an = an refl

error_same : {E A : Type 0} (x e : E) (r : Result E A) → r ≡ err x → r ≡ err e → x ≡ e
error_same x e r h k = cc

module _ {S E A B : Type 0} (e : E) where
  continue-Avoids :
      (r : Result E A) (f : A → Exec S E B) (s : S)
      → r ≢ err e
      → ((a : A) → r ≡ ok a → Avoids e (f a) s)
      → (continue r f s).0 ≢ err e
  unfolding continue
  continue-Avoids (ok a) f s ar af = af a refl
  continue-Avoids (err x) f s ar af =
      λ h. ar (ap err (error_same x e (continue (err x) f s).0 refl h))

  -- The second step starts where the first has left the state.
  pub bind-Avoids :
      (m : Exec S E A) (f : A → Exec S E B) (s : S)
      → Avoids e m s
      → ((a : A) → (m s).0 ≡ ok a → Avoids e (f a) (m s).1)
      → Avoids e (m >>= f) s
  unfolding ◌>>=◌
  bind-Avoids m f s am af = continue-Avoids (m s).0 f (m s).1 am af

module _ {S E F A : Type 0} (e : F) where
  recover-Avoids :
      (r : Result E A) (f : E → Exec S F A) (s : S)
      → ((x : E) → Avoids e (f x) s)
      → (recover r f s).0 ≢ err e
  unfolding recover
  recover-Avoids (ok a) f s af = λ h. cc
  recover-Avoids (err x) f s af = af x

  pub or_else-Avoids :
      (m : Exec S E A) (f : E → Exec S F A) (s : S)
      → ((x : E) (t : S) → Avoids e (f x) t)
      → Avoids e (or_else m f) s
  unfolding or_else
  or_else-Avoids m f s af = recover-Avoids (m s).0 f (m s).1 (λ x. af x (m s).1)
