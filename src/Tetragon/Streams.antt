-- ===== src/Tetragon/Streams.antt =====
-- tetragon.rs: the streams of the manager, and its health. The tasks that feed the streams are not
-- modelled; what they do to this state is set_stream_connected.
pub mod Exact
use hub_kubernetes_agent.Prelude.{
  ℕ, ◌+◌, ◌-◌, String, Option, none, some, List, [], ◌∷◌, map, filter, Bool, true, false, not, ◌&&◌,
  ◌||◌, ◌==◌, ltb, if◌then◌else◌, lookup, length, contains, is_some, is_empty, map_or, unwrap_or,
  Result, ok, err,
}

pub data StreamSource : Type 0 where
  discovered fallback : StreamSource

pub record StreamEntry : Type 0 where
  pub source : StreamSource
  pub connected : Bool

-- A `HashMap`.
abbrev pub Streams : Type 0
Streams = List (String × StreamEntry)

-- `State`, with the gauge and the readiness that it sets.
pub record State : Type 0 where
  pub streams : Streams
  pub dependency_required : Bool
  pub gauge : ℕ
  pub dependency_ready : Bool

abbrev pub fallback_stream_key : String
fallback_stream_key = "__fallback__"

abbrev pub is_discovered : StreamEntry → Bool
is_discovered entry = elim entry.source [ discovered ↦ true | fallback ↦ false ]

pub record CoverageSnapshot : Type 0 where
  pub observed_endpoints : ℕ
  pub connected_endpoints : ℕ
  pub unavailable_endpoints : ℕ

unfoldable pub coverage_snapshot : State → CoverageSnapshot
coverage_snapshot state =
    let observed = length state.streams in
    let connected = length (filter (λ e. e.1.connected) state.streams) in
    record {
      observed_endpoints = observed;
      connected_endpoints = connected;
      unavailable_endpoints = observed - connected;
    }

unfoldable pub refresh_health : State → State
unfolding coverage_snapshot
refresh_health state =
    let connected = (coverage_snapshot state).connected_endpoints in
    record state {
      gauge = connected;
      dependency_ready = not state.dependency_required || ltb 0 connected;
    }

unfoldable pub stream_exists : String → State → Bool
stream_exists key state = is_some (lookup key state.streams)

abbrev pub remove_key : String → Streams → Streams
remove_key key streams = filter (λ e. not (e.0 == key)) streams

unfoldable pub register_stream : String → StreamEntry → State → State
unfolding refresh_health
register_stream key entry state =
    refresh_health (record state { streams = (key, entry) ∷ remove_key key state.streams })

-- Whether the stream was connected, and the state.
unfoldable pub set_stream_connected : String → Bool → State → Bool × State
unfolding refresh_health
set_stream_connected key connected state = elim (lookup key state.streams) [
  | none ↦ (false, state)
  | some entry ↦ (
    entry.connected,
    refresh_health (record state {
      streams = (key, record entry { connected = connected }) ∷ remove_key key state.streams;
    }),
  )
]

unfoldable pub remove_stream : String → State → State
unfolding refresh_health
remove_stream key state =
    if is_some (lookup key state.streams)
    then refresh_health (record state { streams = remove_key key state.streams })
    else state

unfoldable pub discovered_keys : Streams → List String
discovered_keys streams = map (λ e. e.0) (filter (λ e. is_discovered e.1) streams)

unfoldable pub has_fallback_stream : State → Bool
has_fallback_stream state =
    map_or (lookup fallback_stream_key state.streams) false (λ entry. not (is_discovered entry))

unfoldable pub spawn_stream : String → StreamSource → State → State
unfolding stream_exists register_stream
spawn_stream key source state =
    if stream_exists key state
    then state
    else register_stream key (record { source = source; connected = false }) state

unfoldable pub ensure_fallback_stream : State → State
unfolding stream_exists spawn_stream
ensure_fallback_stream state =
    if stream_exists fallback_stream_key state
    then state
    else spawn_stream fallback_stream_key fallback state

unfoldable pub remove_streams : List String → State → State
unfolding remove_stream
remove_streams [] state = state
remove_streams (key ∷ rest) state = remove_streams rest (remove_stream key state)

unfoldable pub spawn_streams : List String → State → State
unfolding spawn_stream stream_exists
spawn_streams [] state = state
spawn_streams (address ∷ rest) state =
    spawn_streams rest
      (if stream_exists address state then state else spawn_stream address discovered state)

unfoldable pub remove_fallback : State → State
unfolding has_fallback_stream remove_stream
remove_fallback state =
    if has_fallback_stream state then remove_stream fallback_stream_key state else state

-- From the endpoints that were found on.
unfoldable pub reconcile_endpoints : List String → State → State
unfolding ensure_fallback_stream discovered_keys remove_streams remove_fallback spawn_streams
reconcile_endpoints endpoints state =
    if is_empty endpoints
    then (if is_empty state.streams then ensure_fallback_stream state else state)
    else spawn_streams endpoints (
        remove_fallback (
          remove_streams
            (filter (λ key. not (contains endpoints key)) (discovered_keys state.streams)) state))
