-- ===== src/Examples/TetragonStreams.antt =====
-- The streams and the buffer of events at small inputs.
use hub_kubernetes_agent.Prelude.{
  ℕ, ◌≤◌, ◌≡◌, refl, sym, ap, none, some, List, [], ◌∷◌, true, false, ◌==◌, filter, length,
  contains, arith, Bool-cases, inl, inr,
}
use hub_kubernetes_agent.Prelude.Decisions.{some-injective}
use hub_kubernetes_agent.Tetragon.Buffer.{
  BufferedLine, max_buffered_events, push_line, snapshot_ndjson, ndjson,
}
use hub_kubernetes_agent.Tetragon.Buffer.Window.{
  is_recent, push_line-length, snapshot_ndjson-is_recent,
}
use hub_kubernetes_agent.Tetragon.Endpoints.{
  EndpointSlice, max_discovered_endpoints, discover_tetragon_endpoints,
  discover_tetragon_endpoints-Capped,
}
use hub_kubernetes_agent.Tetragon.Streams.{
  State, Streams, StreamEntry, fallback, fallback_stream_key, stream_exists, reconcile_endpoints,
  is_discovered,
}
use hub_kubernetes_agent.Tetragon.Streams.Exact.{WellKeyed, reconcile_endpoints-exact}

abbrev line_at : ℕ → BufferedLine
line_at now = record { line = "{}"; recorded_at_ms = now }

abbrev lines : List BufferedLine
lines = line_at 10_000 ∷ line_at 50_000 ∷ line_at 90_000 ∷ []

push_line-length_example : length (push_line 100_000 100_001 "{}" lines) ≤ max_buffered_events
push_line-length_example = push_line-length 100_000 100_001 "{}" lines (omega arith)

snapshot_ndjson-is_recent_example :
    snapshot_ndjson 100_000 lines
    ≡ (ndjson (filter (is_recent 100_000) lines), filter (is_recent 100_000) lines)
snapshot_ndjson-is_recent_example =
    snapshot_ndjson-is_recent 100_000 0 lines (omega arith, (omega arith, (omega arith, tt)))

abbrev slices : List EndpointSlice
slices =
    record {
      ports = some (none ∷ some 54_321 ∷ []);
      endpoints =
          record { ready = some true; target_kind = some (some "Pod"); addresses = "10.0.0.1" ∷ [] }
          ∷ record { ready = some false; target_kind = none; addresses = "10.0.0.2" ∷ [] }
          ∷ [];
    }
    ∷ []

discover_tetragon_endpoints-Capped_example :
    length (discover_tetragon_endpoints (λ a. some a) (λ n. "54321") 54_321 slices)
    ≤ max_discovered_endpoints
discover_tetragon_endpoints-Capped_example =
    discover_tetragon_endpoints-Capped (λ a. some a) (λ n. "54321") 54_321 slices

abbrev falling_entry : StreamEntry
falling_entry = record { source = fallback; connected = true }

-- One stream, to the configured address.
abbrev streams : Streams
streams = (fallback_stream_key, falling_entry) ∷ []

abbrev falling_back : State
falling_back = record {
  streams = streams;
  dependency_required = true;
  gauge = 1;
  dependency_ready = true;
}

streams-WellKeyed : WellKeyed streams
streams-WellKeyed k entry found = elim (Bool-cases (fallback_stream_key == k)) [
  | inl same ↦
      let e : entry ≡ falling_entry = sym (some-injective (rw same at found)) in
      rw same (ap is_discovered e)
  | inr other ↦ cc (rw other at found)
]

reconcile_endpoints-exact_example :
    stream_exists fallback_stream_key (reconcile_endpoints ("10.0.0.1:54321" ∷ []) falling_back)
    ≡ contains ("10.0.0.1:54321" ∷ []) fallback_stream_key
reconcile_endpoints-exact_example =
    reconcile_endpoints-exact ("10.0.0.1:54321" ∷ []) falling_back fallback_stream_key refl
      streams-WellKeyed
