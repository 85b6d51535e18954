-- ===== src/Examples/HubRequests.antt =====
-- The client of the Hub, with a Hub that does not know the first route and is busy once.
use hub_kubernetes_agent.Prelude.{
  ℕ, ◌≡◌, refl, String, [], ◌∷◌, true, false, ◌==◌, is_empty, leb, ltb, ◌&&◌, if◌then◌else◌, Result,
  ok, err,
}
use hub_kubernetes_agent.Hub.{Reply, asked, slept, Log}
use hub_kubernetes_agent.Hub.Routes.{HubRoutes, new}
use hub_kubernetes_agent.Hub.Snapshot.{send_snapshot}
use hub_kubernetes_agent.Hub.Requests.{SendError, ack_command, poll_commands}

abbrev routes : HubRoutes
routes = record { legacy_base = "https://hub"; api_base = "https://hub/api"; prefer_api = false }

new-routes : new "https://hub/api" ≡ record routes { prefer_api = true }
unfolding new
new-routes = refl

abbrev legacy : String
legacy = "https://hub/v1/clusters/c/inventory"

abbrev api : String
api = "https://hub/api/v1/agent/ingest"

-- A reply, with the class of its status.
abbrev reply : ℕ → String → Reply
reply status body = record {
  status = status;
  is_success = leb 200 status && ltb status 300;
  is_client_error = leb 400 status && ltb status 500;
  body = body;
}

-- Busy at the fallback's first request.
abbrev reply_at : Log → Reply
reply_at (asked url ∷ []) = reply 503 ""
reply_at log = reply 201 " "

abbrev post : String → Log → Result String Reply
post url log = if url == legacy then ok (reply 404 "") else ok (reply_at log)

abbrev show : ℕ → String
show n = "n"

abbrev parse : String → Result String (Unit {0})
parse body = err "not an object"

snapshot_sent :
    send_snapshot show parse post routes "c" []
    ≡ (ok tt, asked api ∷ asked legacy ∷ slept 2_000 ∷ asked api ∷ asked legacy ∷ [])
unfolding send_snapshot
snapshot_sent = refl

abbrev missing : String → Log → Result SendError Reply
missing url log = if is_empty log then ok (reply 404 "") else ok (reply 500 "")

-- A server's error is no error of the acknowledgement.
ack_fails_quietly : (ack_command show missing routes "c" "cmd-1" []).0 ≡ ok tt
unfolding ack_command
ack_fails_quietly = refl

poll_fails : (poll_commands show missing (λ body. ok []) routes "c" "30" []).0 ≡ err "poll status n"
unfolding poll_commands
poll_fails = refl
