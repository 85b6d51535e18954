-- ===== src/Exec/Yields.antt =====
-- What such a function returns and fails with, from whatever state it starts.
use hub_kubernetes_agent.Prelude.{◌≡◌, Bool, true, false, if◌then◌else◌, Result, ok, err}
use hub_kubernetes_agent.Exec.{Exec, pure, fail, continue, ◌>>=◌, ◌>>◌, recover, or_else, attempt}

-- Nothing is asked of a value.
pub record NoClaim {A : Type 0} (a : A) : Type 0 where

pub data Outcome {E A : Type 0} (Q : E → Type 0) (P : A → Type 0) : Result E A → Type 0 where
  returns : (a : A) → P a → Outcome Q P (ok a)
  fails : (e : E) → Q e → Outcome Q P (err e)

-- What `m` returns has `P`, and the errors it fails with have `Q`.
pub record Yields {S E A : Type 0} (Q : E → Type 0) (P : A → Type 0) (m : Exec S E A) : Type 0 where
  pub at : (s : S) → Outcome Q P (m s).0

pub Outcome-error :
    {E A : Type 0} {Q : E → Type 0} {P : A → Type 0} (r : Result E A) (e : E)
    → Outcome Q P r
    → r ≡ err e
    → (x : E) × (x ≡ e) × (Q x)
Outcome-error r e (returns a p) h = cc
Outcome-error r e (fails x q) h = (x, cc, q)

module _ {S E A : Type 0} {Q : E → Type 0} {P : A → Type 0} where
  pub Yields-pure : (a : A) → P a → Yields {S = S} Q P (pure a)
  unfolding pure
  Yields-pure a p = record { at = λ s. returns a p }

  pub Yields-fail : (e : E) → Q e → Yields {S = S} Q P (fail e)
  unfolding fail
  Yields-fail e q = record { at = λ s. fails e q }

  pub Yields-if :
      (test : Bool) (m n : Exec S E A)
      → Yields Q P m
      → Yields Q P n
      → Yields Q P (if test then m else n)
  Yields-if true m n ym yn = ym
  Yields-if false m n ym yn = yn

trivial-Outcome : {E A : Type 0} (r : Result E A) → Outcome NoClaim NoClaim r
trivial-Outcome (ok a) = returns a (record {})
trivial-Outcome (err e) = fails e (record {})

pub Yields-any : {S E A : Type 0} (m : Exec S E A) → Yields NoClaim NoClaim m
Yields-any m = record { at = λ s. trivial-Outcome (m s).0 }

module _ {S E A B : Type 0} {Q : E → Type 0} {P : B → Type 0} where
  Yields-continue :
      {R : A → Type 0} (r : Result E A) (f : A → Exec S E B) (s : S)
      → Outcome Q R r
      → ((a : A) → R a → Yields Q P (f a))
      → Outcome Q P (continue r f s).0
  unfolding continue
  Yields-continue (ok a) f s (returns _ p) yf = (yf a p).at s
  Yields-continue (err e) f s (fails _ q) yf = fails e q

  -- The rest may use what the first step returned.
  pub Yields-bind_of :
      {R : A → Type 0} (m : Exec S E A) (f : A → Exec S E B)
      → Yields Q R m
      → ((a : A) → R a → Yields Q P (f a))
      → Yields Q P (m >>= f)
  unfolding ◌>>=◌
  Yields-bind_of m f ym yf = record { at = λ s. Yields-continue (m s).0 f (m s).1 (ym.at s) yf }

  pub Yields-bind :
      (m : Exec S E A) (f : A → Exec S E B)
      → Yields Q NoClaim m
      → ((a : A) → Yields Q P (f a))
      → Yields Q P (m >>= f)
  Yields-bind m f ym yf = Yields-bind_of m f ym (λ a any. yf a)

  pub Yields-then :
      (m : Exec S E A) (n : Exec S E B) → Yields Q NoClaim m → Yields Q P n → Yields Q P (m >> n)
  unfolding ◌>>◌
  Yields-then m n ym yn = Yields-bind m (λ _. n) ym (λ _. yn)

module _ {S E F A : Type 0} {Q : F → Type 0} {P : A → Type 0} where
  pub Yields-recover :
      (r : Result E A) (f : E → Exec S F A)
      → Outcome NoClaim P r
      → ((e : E) → Yields Q P (f e))
      → Yields Q P (recover r f)
  unfolding recover
  Yields-recover (ok a) f (returns _ p) yf = record { at = λ s. returns a p }
  Yields-recover (err e) f (fails _ q) yf = record { at = λ s. (yf e).at s }

  pub Yields-or_else :
      (m : Exec S E A) (f : E → Exec S F A)
      → Yields NoClaim P m
      → ((e : E) → Yields Q P (f e))
      → Yields Q P (or_else m f)
  unfolding or_else
  Yields-or_else m f ym yf = record { at = λ s. (Yields-recover (m s).0 f (ym.at s) yf).at (m s).1 }

pub Yields-attempt :
    {S E F A : Type 0} {Q : F → Type 0} (m : Exec S E A) → Yields Q NoClaim (attempt m)
unfolding attempt
Yields-attempt m = record { at = λ s. returns (m s).0 (record {}) }

-- A test whose value nothing is asked of.
pub Yields-recover_any :
    {S E F A : Type 0} {Q : F → Type 0} (r : Result E A) (f : E → Exec S F A)
    → ((e : E) → Yields Q NoClaim (f e))
    → Yields Q NoClaim (recover r f)
Yields-recover_any r f yf = Yields-recover r f (trivial-Outcome r) yf

pub ruleset yields_rules = (
  Yields-pure, Yields-fail, Yields-if, Yields-any, Yields-bind, Yields-then, Yields-or_else,
  Yields-attempt, Yields-recover_any,
)
