-- ===== src/Tetragon/Buffer.antt =====
-- tetragon.rs: the buffer of event lines, the oldest first, behind one lock. Times are in milliseconds.
pub mod Window
use hub_kubernetes_agent.Prelude.{
  ℕ, ◌-◌, ◌*◌, String, List, [], ◌∷◌, ◌++◌, Bool, leb, ltb, if◌then◌else◌, ◌<>◌, length,
}

pub record BufferedLine : Type 0 where
  pub line : String
  pub recorded_at_ms : ℕ

abbrev pub max_buffered_events : ℕ
max_buffered_events = 20_000

-- `now_unix_ms().saturating_sub(DEP_WINDOW_SECONDS as u128 * 1000)`
abbrev pub cutoff : ℕ → ℕ
cutoff now = now - 60 * 1000

-- The loop that drops old lines at the front.
unfoldable pub prune_locked : ℕ → List BufferedLine → List BufferedLine
prune_locked now [] = []
prune_locked now (first ∷ rest) =
    let later = prune_locked now rest in
    if ltb first.recorded_at_ms (cutoff now) then later else first ∷ rest

abbrev pub pop_front : List BufferedLine → List BufferedLine
pop_front [] = []
pop_front (first ∷ rest) = rest

-- The body of the loop over the events of a stream: the clock is read twice.
unfoldable pub push_line : ℕ → ℕ → String → List BufferedLine → List BufferedLine
unfolding prune_locked
push_line now later line lines =
    let kept = prune_locked now lines in
    (if leb max_buffered_events (length kept) then pop_front kept else kept)
    ++ (record { line = line; recorded_at_ms = later } ∷ [])

abbrev pub ndjson : List BufferedLine → String
ndjson [] = ""
ndjson (first ∷ rest) = first.line <> "\n" <> ndjson rest

-- The text, and the lines that stay.
unfoldable pub snapshot_ndjson : ℕ → List BufferedLine → String × List BufferedLine
unfolding prune_locked
snapshot_ndjson now lines = let kept = prune_locked now lines in (ndjson kept, kept)
