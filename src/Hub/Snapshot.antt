-- ===== src/Hub/Snapshot.antt =====
-- hub.rs: `send_snapshot`. What is logged is left out, and of the texts of errors what tells of a body.
pub mod Ends
use hub_kubernetes_agent.Prelude.{
  ℕ, ◌+◌, String, Option, none, some, List, [], ◌∷◌, Bool, not, ◌&&◌, ◌||◌, ◌==◌, nat_eq, ◌<>◌,
  if◌then◌else◌, unwrap_or, is_empty, trim, Result, ok, err,
}
use hub_kubernetes_agent.Hub.{Reply, asked, slept, Log}
use hub_kubernetes_agent.Hub.Routes.{HubRoutes, inventory_urls}

-- What a reply leads to: the end, or the next URL, with the error to remember if there is one.
pub data Verdict : Type 0 where
  stop : Result String (Unit {0}) → Verdict
  go_on : Option String → Verdict

abbrev pub backoffs : List ℕ
backoffs = 0 ∷ 2_000 ∷ 5_000 ∷ []

abbrev pub remember : Option String → Option String → Option String
remember none last = last
remember (some e) last = some e

module _ (show : ℕ → String) (parse : String → Result String (Unit {0}))
    (post : String → Log → Result String Reply) where
  -- The body of a success: an error of the parser is returned.
  abbrev pub accept : String → Result String (Unit {0})
  accept body = if trim body == "" then ok tt else elim (parse body) [
    | ok created ↦ ok tt
    | err e ↦ err ("error decoding inventory response body: " <> e)
  ]

  -- The body of the inner loop; `more` says whether a URL follows.
  unfoldable pub judge_reply : ℕ → Bool → Result String Reply → Verdict
  unfolding trim
  judge_reply attempt more (err e) = go_on (some ("attempt " <> show attempt <> " error: " <> e))
  judge_reply attempt more (ok reply) =
      if reply.is_success
      then stop (accept reply.body)
      else if nat_eq reply.status 404 && more
      then go_on none
      else if reply.is_client_error
          && (not (nat_eq reply.status 408) && not (nat_eq reply.status 429))
      then stop (err ("hub rejected snapshot: " <> show reply.status))
      else go_on (some ("attempt " <> show attempt <> " status " <> show reply.status))

  -- The inner loop, over the URLs; the outer loop's next turns are its last argument.
  unfoldable pub send_urls :
      ℕ
      → List String
      → Option String
      → (Option String → Log → Result String (Unit {0}) × Log)
      → Log
      → Result String (Unit {0}) × Log
  unfolding judge_reply
  send_urls attempt [] last then_ log = then_ last log
  send_urls attempt (url ∷ urls) last then_ log =
      elim (judge_reply attempt (not (is_empty urls)) (post url log)) [
        | stop result ↦ (result, asked url ∷ log)
        | go_on e ↦ send_urls attempt urls (remember e last) then_ (asked url ∷ log)
      ]

  -- The outer loop, over the delays.
  unfoldable pub send_attempts :
      List String → ℕ → List ℕ → Option String → Log → Result String (Unit {0}) × Log
  unfolding send_urls
  send_attempts urls attempt [] last log = (err (unwrap_or last "snapshot retries exhausted"), log)
  send_attempts urls attempt (delay ∷ delays) last log =
      send_urls attempt urls last (send_attempts urls (attempt + 1) delays)
        (if nat_eq delay 0 then log else slept delay ∷ log)

  unfoldable pub send_snapshot : HubRoutes → String → Log → Result String (Unit {0}) × Log
  unfolding inventory_urls send_attempts
  send_snapshot routes cluster_id log =
      send_attempts (inventory_urls routes cluster_id) 1 backoffs none log
