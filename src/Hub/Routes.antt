-- ===== src/Hub/Routes.antt =====
-- hub.rs: the URLs of the Hub, with their fallbacks.
use hub_kubernetes_agent.Prelude.{
  ℕ, zero, suc, byte_length, String, none, some, List, [], ◌∷◌, ◌++◌, Bool, true, false, ◌<>◌,
  if◌then◌else◌, contains,
}
use hub_kubernetes_agent.Tech.Texts.{strip_suffix}

-- `trim_end_matches` of a text that is not empty: the suffix is taken off as often as it is there, at
-- most so many times.
abbrev trim_suffix : ℕ → String → String → String
trim_suffix zero suffix s = s
trim_suffix (suc n) suffix s = elim (strip_suffix s suffix) [
  | some rest ↦ trim_suffix n suffix rest
  | none ↦ s
]

pub record HubRoutes : Type 0 where
  pub legacy_base : String
  pub api_base : String
  pub prefer_api : Bool

unfoldable pub new : String → HubRoutes
unfolding strip_suffix
new hub_url = elim (strip_suffix hub_url "/api") [
  | some rest ↦ record {
    legacy_base = trim_suffix (byte_length hub_url) "/api" hub_url;
    api_base = hub_url;
    prefer_api = true;
  }
  | none ↦ record { legacy_base = hub_url; api_base = hub_url <> "/api"; prefer_api = false }
]

-- `dedupe_urls`, with the URLs that are already out.
unfoldable pub dedupe_urls : List String → List String → List String
dedupe_urls out [] = out
dedupe_urls out (url ∷ urls) =
    dedupe_urls (if contains out url then out else out ++ (url ∷ [])) urls

unfoldable pub ordered : HubRoutes → String → String → List String
unfolding dedupe_urls
ordered routes legacy api =
    if routes.prefer_api
    then dedupe_urls [] (api ∷ legacy ∷ [])
    else dedupe_urls [] (legacy ∷ api ∷ [])

unfoldable pub inventory_urls : HubRoutes → String → List String
unfolding ordered
inventory_urls routes cluster_id =
    ordered routes (routes.legacy_base <> "/v1/clusters/" <> cluster_id <> "/inventory")
      (routes.api_base <> "/v1/agent/ingest")

unfoldable pub poll_urls : HubRoutes → String → String → List String
unfolding ordered
poll_urls routes cluster_id wait_secs =
    let path = "/v1/clusters/" <> cluster_id <> "/commands/poll?wait=" <> wait_secs <> "s" in
    ordered routes (routes.legacy_base <> path) (routes.api_base <> path)

unfoldable pub cluster_status_urls : HubRoutes → String → List String
unfolding ordered
cluster_status_urls routes cluster_id =
    let path = "/v1/clusters/" <> cluster_id in
    ordered routes (routes.legacy_base <> path) (routes.api_base <> path)

unfoldable pub ack_urls : HubRoutes → String → String → List String
unfolding ordered
ack_urls routes cluster_id command_id =
    let path = "/v1/clusters/" <> cluster_id <> "/commands/" <> command_id <> "/ack" in
    ordered routes (routes.legacy_base <> path) (routes.api_base <> path)
