-- ===== src/Executor/Clock.antt =====
-- executor.rs: what the waits rely on of a clock. The standard library documents that an `Instant`
-- never goes back, and the runtime that a sleep lasts at least as long as it was asked to. A
-- `SystemTime` may be set back; how far is a parameter.
use hub_kubernetes_agent.Prelude.{
  ◌≡◌, ◌≢◌, refl, some, ok, err, ℕ, ◌+◌, ◌≤◌, ◌∷◌, String, Result, arith,
}
use hub_kubernetes_agent.Exec.{Exec, ◌>>=◌}
use hub_kubernetes_agent.Exec.Avoids.{Avoids}
use hub_kubernetes_agent.Exec.Keeps.{Keeps}
use hub_kubernetes_agent.Model.Result.{CommandResult}
use hub_kubernetes_agent.Executor.Api.{
  Early, returned, out_of_fuel, finish, Event, History, request, read, sleep,
}

pub record IsClock (clock : History → ℕ) : Type 0 where
  pub forward : (event : Event) (h : History) → clock h ≤ clock (event ∷ h)
  pub waits : (ms : ℕ) (h : History) → ms + clock h ≤ clock (sleep ms ∷ h)

-- The clock has reached a time.
abbrev pub Reached : (History → ℕ) → ℕ → History → Type 0
Reached clock time h = time ≤ clock h

pub Reached-request :
    {A : Type 0} (clock : History → ℕ) (time : ℕ) (event : Event)
    (answer : History → Result String A)
    → IsClock clock
    → Keeps (Reached clock time) (request event answer)
unfolding request
Reached-request clock time event answer law = record {
  at = λ h reached. let forward = law.forward event h in omega arith;
}

-- A history that comes after another.
pub data Extends (h : History) : History → Type 0 where
  same : Extends h h
  one_more : (event : Event) (later : History) → Extends h later → Extends h (event ∷ later)

pub Extends-request :
    {A : Type 0} (h : History) (event : Event) (answer : History → Result String A)
    → Keeps (Extends h) (request event answer)
unfolding request
Extends-request h event answer = record { at = λ later e. one_more event later e }

-- Over no stretch of a run does the wall clock fall behind the monotonic clock by more than this.
pub record LosesAtMost (back : ℕ) (instant wall : History → ℕ) : Type 0 where
  pub loses :
      (h later : History) → Extends h later → wall h + instant later ≤ wall later + instant h + back

-- A reading of a clock, and what follows it.
pub read-Avoids :
    {E A B : Type 0} (e : E) (f : History → A) (g : A → Exec History E B) (h : History)
    → Avoids e (g (f h)) h
    → Avoids e (read f >>= g) h
unfolding read ◌>>=◌
read-Avoids e f g h apart = apart

-- A handler that does not run out of fuel has a result.
pub finish-Avoids :
    (r : Result Early CommandResult × History)
    → r.0 ≢ err out_of_fuel
    → (result : CommandResult) × ((finish r).0 ≡ some result)
unfolding finish
finish-Avoids (ok result, h) apart = (result, refl)
finish-Avoids (err (returned result), h) apart = (result, refl)
finish-Avoids (err out_of_fuel, h) apart = absurd (apart refl)
