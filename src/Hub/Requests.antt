-- ===== src/Hub/Requests.antt =====
-- hub.rs: `ack_command`, `poll_commands` and `get_cluster_status`. What is logged and counted is left
-- out, and of the texts of errors what tells of a body.
use hub_kubernetes_agent.Prelude.{
  ℕ, String, Option, none, List, [], ◌∷◌, Bool, not, ◌&&◌, ◌==◌, nat_eq, ◌<>◌, if◌then◌else◌,
  is_empty, trim, Result, ok, err,
}
use hub_kubernetes_agent.Model.Result.{Command}
use hub_kubernetes_agent.Hub.{Reply, asked, Log}
use hub_kubernetes_agent.Hub.Routes.{HubRoutes, ack_urls, poll_urls, cluster_status_urls}

-- An error of the HTTP client, of which `is_timeout` is looked at.
pub record SendError : Type 0 where
  pub is_timeout : Bool
  pub message : String

-- `ClusterStatus` of src/model.rs, and its default.
pub record ClusterStatus : Type 0 where
  pub last_seen_at : Option String
  pub k8s_uid : Option String

abbrev pub default_status : ClusterStatus
default_status = record { last_seen_at = none; k8s_uid = none }

-- `continue` of a loop over URLs, or what it returns.
pub data Next (A : Type 0) : Type 0 where
  fallback : Next A
  return : A → Next A

module _ (show : ℕ → String) (send : String → Log → Result SendError Reply) where
  -- A loop over URLs, with what follows it.
  unfoldable pub try_urls :
      {A : Type 0} → (Bool → Result SendError Reply → Next A) → A → List String → Log → A × Log
  try_urls judge after [] log = (after, log)
  try_urls judge after (url ∷ urls) log = elim (judge (not (is_empty urls)) (send url log)) [
    | fallback ↦ try_urls judge after urls (asked url ∷ log)
    | return a ↦ (a, asked url ∷ log)
  ]

  unfoldable pub judge_ack : Bool → Result SendError Reply → Next (Result String (Unit {0}))
  judge_ack more (err e) = return (err e.message)
  judge_ack more (ok reply) = if nat_eq reply.status 404 && more then fallback else return (ok tt)

  unfoldable pub ack_command : HubRoutes → String → String → Log → Result String (Unit {0}) × Log
  unfolding try_urls judge_ack ack_urls
  ack_command routes cluster_id command_id log =
      try_urls judge_ack (ok tt) (ack_urls routes cluster_id command_id) log

  -- A body that is parsed unless it is blank.
  abbrev parsed_or :
      {A : Type 0} → A → (String → Result String A) → String → String → Result String A
  parsed_or blank parse what body =
      if trim body == ""
      then ok blank
      else elim (parse body) [ ok a ↦ ok a | err e ↦ err ("error decoding " <> what <> ": " <> e) ]

  unfoldable pub judge_poll :
      (String → Result String (List Command))
      → Bool
      → Result SendError Reply
      → Next (Result String (List Command))
  unfolding trim
  judge_poll parse more (err e) = if e.is_timeout then return (ok []) else return (err e.message)
  judge_poll parse more (ok reply) =
      if nat_eq reply.status 204
      then return (ok [])
      else if nat_eq reply.status 404 && more
      then fallback
      else if not reply.is_success
      then return (err ("poll status " <> show reply.status))
      else return (parsed_or [] parse "response body" reply.body)

  unfoldable pub poll_commands :
      (String → Result String (List Command))
      → HubRoutes
      → String
      → String
      → Log
      → Result String (List Command) × Log
  unfolding try_urls judge_poll poll_urls
  poll_commands parse routes cluster_id wait_secs log =
      try_urls (judge_poll parse) (err "poll status 404 Not Found")
        (poll_urls routes cluster_id wait_secs) log

  unfoldable pub judge_status :
      (String → Result String ClusterStatus)
      → Bool
      → Result SendError Reply
      → Next (Result String ClusterStatus)
  unfolding trim
  judge_status parse more (err e) = return (err e.message)
  judge_status parse more (ok reply) =
      if nat_eq reply.status 404
      then if more then fallback else return (ok default_status)
      else if not reply.is_success
      then return (err ("cluster status fetch failed: " <> show reply.status))
      else return (parsed_or default_status parse "cluster status body" reply.body)

  unfoldable pub get_cluster_status :
      (String → Result String ClusterStatus)
      → HubRoutes
      → String
      → Log
      → Result String ClusterStatus × Log
  unfolding try_urls judge_status cluster_status_urls
  get_cluster_status parse routes cluster_id log =
      try_urls (judge_status parse) (ok default_status) (cluster_status_urls routes cluster_id) log
