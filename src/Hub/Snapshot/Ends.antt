-- ===== src/Hub/Snapshot/Ends.antt =====
-- hub.rs: which requests the sending of a snapshot makes, and how it ends.
use hub_kubernetes_agent.Prelude.{
  ℕ, ◌≡◌, ◌⊎◌, String, Option, List, [], ◌∷◌, Bool, true, false, not, ◌&&◌, nat_eq, is_empty, trim,
  Result, ok, err,
}
use hub_kubernetes_agent.Hub.{Reply, asked, slept, Log}
use hub_kubernetes_agent.Hub.Snapshot.{Verdict, stop, go_on}

-- What may be done: a pause, and a request to a URL, with whether another URL follows in its attempt.
pub data Step : Type 0 where
  pause : ℕ → Step
  try_url : String → Bool → Step

abbrev pub posts_of : List String → List Step → List Step
posts_of [] later = later
posts_of (url ∷ urls) later = try_url url (not (is_empty urls)) ∷ posts_of urls later

-- Three attempts, the second after two seconds, the third after five.
abbrev pub schedule : List String → List Step
schedule urls = posts_of urls (pause 2_000 ∷ posts_of urls (pause 5_000 ∷ posts_of urls []))

-- A reply after which the next step is taken: no answer; an unknown route that has a fallback; or a
-- status that is neither a success nor the client's fault, 408 and 429 being nobody's.
pub data IsRetried (more : Bool) : Result String Reply → Type 0 where
  unanswered : (e : String) → IsRetried more (err e)
  unrouted : (reply : Reply) → reply.status ≡ 404 → more ≡ true → IsRetried more (ok reply)
  failing :
      (reply : Reply)
      → reply.is_success ≡ false
      → (reply.is_client_error ≡ false) ⊎ ((reply.status ≡ 408) ⊎ (reply.status ≡ 429))
      → IsRetried more (ok reply)

module _ (show : ℕ → String) (parse : String → Result String (Unit {0}))
    (post : String → Log → Result String Reply) where
  -- A reply that ends it: a success, which is one for the agent too if its body is blank or parses; or
  -- a refusal.
  pub data IsFinal (more : Bool) : Result String Reply → Result String (Unit {0}) → Type 0 where
    blank :
        (reply : Reply)
        → reply.is_success ≡ true
        → trim reply.body ≡ ""
        → IsFinal more (ok reply) (ok tt)
    created :
        (reply : Reply)
        → reply.is_success ≡ true
        → parse reply.body ≡ ok tt
        → IsFinal more (ok reply) (ok tt)
    unreadable :
        (reply : Reply) (e message : String)
        → reply.is_success ≡ true
        → parse reply.body ≡ err e
        → IsFinal more (ok reply) (err message)
    refused :
        (reply : Reply) (message : String)
        → reply.is_client_error ≡ true
        → nat_eq reply.status 408 ≡ false
        → nat_eq reply.status 429 ≡ false
        → (nat_eq reply.status 404 && more) ≡ false
        → IsFinal more (ok reply) (err message)

  data Judged (more : Bool) (answer : Result String Reply) : Verdict → Type 0 where
    stopped :
        (result : Result String (Unit {0}))
        → IsFinal more answer result
        → Judged more answer (stop result)
    retried : (e : Option String) → IsRetried more answer → Judged more answer (go_on e)

  -- How the steps end: at a final reply; or, after all of them, with an error.
  pub data SendEnd : List Step → Log → Result String (Unit {0}) → Log → Type 0 where
    paused :
        (ms : ℕ) (later : List Step) (log : Log) (result : Result String (Unit {0})) (final : Log)
        → SendEnd later (slept ms ∷ log) result final
        → SendEnd (pause ms ∷ later) log result final
    passed :
        (url : String) (more : Bool) (later : List Step) (log : Log)
        (result : Result String (Unit {0})) (final : Log)
        → IsRetried more (post url log)
        → SendEnd later (asked url ∷ log) result final
        → SendEnd (try_url url more ∷ later) log result final
    ended :
        (url : String) (more : Bool) (later : List Step) (log : Log)
        (result : Result String (Unit {0}))
        → IsFinal more (post url log) result
        → SendEnd (try_url url more ∷ later) log result (asked url ∷ log)
    exhausted : (log : Log) (message : String) → SendEnd [] log (err message) log

  -- A function that takes these steps.
  abbrev Takes : List Step → (Log → Result String (Unit {0}) × Log) → Type 0
  Takes steps run = (log : Log) → SendEnd steps log (run log).0 (run log).1
