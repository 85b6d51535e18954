-- ===== src/Tetragon/Buffer/Window.antt =====
-- tetragon.rs: what the buffer holds.
use hub_kubernetes_agent.Prelude.{
  ℕ, suc, ◌-◌, ◌≤◌, ◌≡◌, refl, sym, ap, String, List, [], ◌∷◌, ◌++◌, Bool, false, not, leb, ltb,
  length, filter, arith, Bool-cases, inl, inr,
}
use hub_kubernetes_agent.Tetragon.Buffer.{
  BufferedLine, max_buffered_events, cutoff, prune_locked, pop_front, push_line, snapshot_ndjson,
  ndjson,
}

prune_locked-length :
    (now : ℕ) (lines : List BufferedLine) → length (prune_locked now lines) ≤ length lines
unfolding prune_locked
prune_locked-length now [] = omega arith
prune_locked-length now (first ∷ rest) =
    let ih = prune_locked-length now rest in
    elim (Bool-cases (ltb first.recorded_at_ms (cutoff now))) [
      | inl old ↦ rw old (omega arith)
      | inr recent ↦ rw recent (omega arith)
    ]

length-snoc :
    (lines : List BufferedLine) (last : BufferedLine)
    → length (lines ++ (last ∷ [])) ≡ suc (length lines)
length-snoc [] last = refl
length-snoc (first ∷ rest) last = ap suc (length-snoc rest last)

pop_front-length : (lines : List BufferedLine) → length (pop_front lines) ≡ length lines - 1
pop_front-length [] = omega arith
pop_front-length (first ∷ rest) = omega arith

-- The buffer never holds more than 20 000 lines: a line that arrives keeps the bound, whatever the
-- clock reads.
pub push_line-length :
    (now later : ℕ) (line : String) (lines : List BufferedLine)
    → length lines ≤ max_buffered_events
    → length (push_line now later line lines) ≤ max_buffered_events
unfolding push_line
push_line-length now later line lines bound =
    let kept = prune_locked now lines in
    let last : BufferedLine = record { line = line; recorded_at_ms = later } in
    let shorter = prune_locked-length now lines in
    let popped = pop_front-length kept in
    elim (Bool-cases (leb max_buffered_events (length kept))) [
      | inl full ↦ rw (full, length-snoc (pop_front kept) last) (omega arith)
      | inr room ↦ rw (room, length-snoc kept last) (ground arith)
    ]

-- The lines are in the order of their times, from a time on.
abbrev pub Ordered : ℕ → List BufferedLine → Type 0
Ordered since [] = Unit {0}
Ordered since (first ∷ rest) = (since ≤ first.recorded_at_ms) × Ordered first.recorded_at_ms rest

-- The line is in the window.
abbrev pub is_recent : ℕ → BufferedLine → Bool
is_recent now line = not (ltb line.recorded_at_ms (cutoff now))

all_recent :
    (now since : ℕ) (lines : List BufferedLine)
    → Ordered since lines
    → cutoff now ≤ since
    → filter (is_recent now) lines ≡ lines
all_recent now since [] ordered after = refl
all_recent now since (first ∷ rest) (here, later) after =
    let recent : ltb first.recorded_at_ms (cutoff now) ≡ false = ground arith in
    rw recent (ap (λ r. first ∷ r) (all_recent now first.recorded_at_ms rest later (omega arith)))

-- Where the lines are in the order of their times, what a snapshot sends and keeps are the lines of
-- the window, all of them, in their order.
pub snapshot_ndjson-is_recent :
    (now since : ℕ) (lines : List BufferedLine)
    → Ordered since lines
    → snapshot_ndjson now lines
      ≡ (ndjson (filter (is_recent now) lines), filter (is_recent now) lines)
unfolding snapshot_ndjson
snapshot_ndjson-is_recent now since lines ordered =
    ap (λ kept. (ndjson kept, kept)) (kept_lines now since lines ordered)
  where
    kept_lines :
        (now since : ℕ) (lines : List BufferedLine)
        → Ordered since lines
        → prune_locked now lines ≡ filter (is_recent now) lines
    kept_lines now since [] ordered = refl
    kept_lines now since (first ∷ rest) (here, later) =
        elim (Bool-cases (ltb first.recorded_at_ms (cutoff now))) [
          | inl old ↦ rw old (kept_lines now first.recorded_at_ms rest later)
          | inr recent ↦ rw recent (
              ap (λ r. first ∷ r)
                (sym (all_recent now first.recorded_at_ms rest later (ground arith))))
        ]
