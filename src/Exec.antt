-- ===== src/Exec.antt =====
-- Asynchronous functions that change a state of the outside and may fail: `async fn … -> Result`.
-- What was done before an error stays done, so the state comes back beside the error too.
pub mod Keeps
pub mod Escapes
pub mod Avoids
pub mod Yields
pub mod Leads
use mathlib.Core.Path.{◌≡◌, refl}
use hub_kubernetes_agent.Prelude.{Result, ok, err}

abbrev pub Exec : Type 0 → Type 0 → Type 0 → Type 0
Exec S E A = S → Result E A × S

module _ {S E A : Type 0} where
  unfoldable pub pure : A → Exec S E A
  pure a s = (ok a, s)

  unfoldable pub fail : E → Exec S E A
  fail e s = (err e, s)

  unfoldable pub lift : Result E A → Exec S E A
  lift r s = (r, s)

module _ {S E A B : Type 0} where
  unfoldable pub continue : Result E A → (A → Exec S E B) → Exec S E B
  continue (ok a) f s = f a s
  continue (err e) f s = (err e, s)

  infixl 10 ◌>>=◌ ◌>>◌
  unfoldable pub ◌>>=◌ : Exec S E A → (A → Exec S E B) → Exec S E B
  unfolding continue
  ◌>>=◌ m f s = continue (m s).0 f (m s).1

  unfoldable pub ◌>>◌ : Exec S E A → Exec S E B → Exec S E B
  unfolding ◌>>=◌
  m >> n = m >>= λ _. n

module _ {S E F A : Type 0} where
  unfoldable pub recover : Result E A → (E → Exec S F A) → Exec S F A
  recover (ok a) f s = (ok a, s)
  recover (err e) f s = f e s

  -- `match … { Ok(a) => a, Err(e) => return … }`, and `map_err`
  unfoldable pub or_else : Exec S E A → (E → Exec S F A) → Exec S F A
  unfolding recover
  or_else m f s = recover (m s).0 f (m s).1

  -- The outcome itself, for a caller that goes on after an error.
  unfoldable pub attempt : Exec S E A → Exec S F (Result E A)
  attempt m s = (ok (m s).0, (m s).1)
