-- ===== src/Exec/Keeps.antt =====
-- Invariants of such functions, one rule for each way to build one.
use hub_kubernetes_agent.Prelude.{◌≡◌, refl, Bool, true, false, if◌then◌else◌, Result, ok, err}
use hub_kubernetes_agent.Exec.{
  Exec, pure, fail, lift, continue, ◌>>=◌, ◌>>◌, recover, or_else, attempt,
}

-- `m` keeps `P`, whether it returns or fails.
pub record Keeps {S E A : Type 0} (P : S → Type 0) (m : Exec S E A) : Type 0 where
  pub at : (s : S) → P s → P (m s).1

module _ {S E A : Type 0} {P : S → Type 0} where
  pub Keeps-lift : (r : Result E A) → Keeps P (lift r)
  unfolding lift
  Keeps-lift outcome = record { at = λ s before. before }

  pub Keeps-fail : (e : E) → Keeps P (fail {A = A} e)
  unfolding fail
  Keeps-fail reason = record { at = λ s before. before }

  pub Keeps-pure : (a : A) → Keeps P (pure {E = E} a)
  unfolding pure
  Keeps-pure value = record { at = λ s before. before }

  pub Keeps-if :
      (test : Bool) (taken other : Exec S E A)
      → (test ≡ true → Keeps P taken)
      → (test ≡ false → Keeps P other)
      → Keeps P (if test then taken else other)
  Keeps-if true taken other on_true on_false = on_true refl
  Keeps-if false taken other on_true on_false = on_false refl

module _ {S E A B : Type 0} {P : S → Type 0} where
  Keeps-continue :
      (r : Result E A) (f : A → Exec S E B) (s : S)
      → ((a : A) → Keeps P (f a))
      → P s
      → P (continue r f s).1
  unfolding continue
  Keeps-continue (ok a) f s kf h = (kf a).at s h
  Keeps-continue (err e) f s kf h = h

  Keeps-continue_eq :
      (r : Result E A) (f : A → Exec S E B) (s : S)
      → ((a : A) → r ≡ ok a → Keeps P (f a))
      → P s
      → P (continue r f s).1
  unfolding continue
  Keeps-continue_eq (ok a) f s kf h = (kf a refl).at s h
  Keeps-continue_eq (err e) f s kf h = h

  pub Keeps-bind :
      (m : Exec S E A) (f : A → Exec S E B)
      → Keeps P m
      → ((a : A) → Keeps P (f a))
      → Keeps P (m >>= f)
  unfolding ◌>>=◌
  Keeps-bind m f km kf = record { at = λ s h. Keeps-continue (m s).0 f (m s).1 kf (km.at s h) }

  -- It is enough that the first step has ended in the invariant.
  pub bind_after :
      (m : Exec S E A) (f : A → Exec S E B) (s : S)
      → ((a : A) → Keeps P (f a))
      → P (m s).1
      → P ((m >>= f) s).1
  unfolding ◌>>=◌
  bind_after m f s kf h = Keeps-continue (m s).0 f (m s).1 kf h

  -- The rest may use what the first step returned, and where.
  pub Keeps-bind_eq :
      (m : Exec S E A) (f : A → Exec S E B)
      → Keeps P m
      → ((a : A) (s : S) → (m s).0 ≡ ok a → Keeps P (f a))
      → Keeps P (m >>= f)
  unfolding ◌>>=◌
  Keeps-bind_eq m f km kf = record {
    at = λ s h. Keeps-continue_eq (m s).0 f (m s).1 (λ a e. kf a s e) (km.at s h);
  }

  pub Keeps-then : (m : Exec S E A) (n : Exec S E B) → Keeps P m → Keeps P n → Keeps P (m >> n)
  unfolding ◌>>◌
  Keeps-then m n km kn = Keeps-bind m (λ _. n) km (λ _. kn)

module _ {S E F A : Type 0} {P : S → Type 0} where
  Keeps-recover :
      (r : Result E A) (f : E → Exec S F A) (s : S)
      → ((e : E) → Keeps P (f e))
      → P s
      → P (recover r f s).1
  unfolding recover
  Keeps-recover (ok a) f s kf h = h
  Keeps-recover (err e) f s kf h = (kf e).at s h

  pub or_else_after :
      (m : Exec S E A) (f : E → Exec S F A) (s : S)
      → ((e : E) → Keeps P (f e))
      → P (m s).1
      → P (or_else m f s).1
  unfolding or_else
  or_else_after m f s kf h = Keeps-recover (m s).0 f (m s).1 kf h

  pub Keeps-or_else :
      (m : Exec S E A) (f : E → Exec S F A)
      → Keeps P m
      → ((e : E) → Keeps P (f e))
      → Keeps P (or_else m f)
  unfolding or_else
  Keeps-or_else m f km kf = record { at = λ s h. Keeps-recover (m s).0 f (m s).1 kf (km.at s h) }

  pub Keeps-attempt : (m : Exec S E A) → Keeps P m → Keeps P (attempt {F = F} m)
  unfolding attempt
  Keeps-attempt m km = record { at = λ s h. km.at s h }

pub ruleset keeps_rules = (
  Keeps-pure, Keeps-fail, Keeps-lift, Keeps-if, Keeps-bind, Keeps-then, Keeps-or_else,
  Keeps-attempt,
)
