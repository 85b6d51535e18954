-- ===== src/Agent/Warnings/Counted.antt =====
-- main.rs: no warning is forgotten.
use hub_kubernetes_agent.Prelude.{
  ℕ, ◌+◌, ◌-◌, ◌≡◌, refl, String, some, List, [], ◌∷◌, ◌++◌, ltb, leb, ◌==◌, arith, lookup, length,
  Bool-cases, Option-cases, inl, inr,
}
use hub_kubernetes_agent.Prelude.Decisions.{some-injective}
use hub_kubernetes_agent.Agent.Warnings.{
  SuppressionState, Suppressions, Line, warned, suppressed, set_state, repeated, warn_within, Call,
  keyed, warn_all,
}

-- How many calls a line stands for.
abbrev pub stands_for : Line → ℕ
stands_for (warned message) = 1
stands_for (suppressed count) = count

abbrev pub counted : List Line → ℕ
counted [] = 0
counted (line ∷ lines) = stands_for line + counted lines

abbrev pub all_counted : List (String × Line) → ℕ
all_counted [] = 0
all_counted ((key, line) ∷ lines) = stands_for line + all_counted lines

-- The calls that were suppressed and are not reported yet.
abbrev pub pending : Suppressions → ℕ
pending [] = 0
pending ((key, state) ∷ rest) = state.suppressed_count + pending rest

pending-set_state :
    (key : String) (old state : SuppressionState) (map : Suppressions)
    → lookup key map ≡ some old
    → pending (set_state key state map) + old.suppressed_count
      ≡ pending map + state.suppressed_count
unfolding set_state
pending-set_state key old state [] found = cc
pending-set_state key old state ((k, here) ∷ rest) found = elim (Bool-cases (k == key)) [
  | inl same ↦ let e : here ≡ old = some-injective (rw same at found) in rw (same, e) (omega arith)
  | inr other ↦
      let ih = pending-set_state key old state rest (rw other at found) in rw other (omega arith)
]

repeated-counted :
    (window : ℕ) (key message : String) (now : ℕ) (state : SuppressionState) (map : Suppressions)
    → lookup key map ≡ some state
    → let (lines, map') = repeated window key message now state map in
      counted lines + pending map' ≡ 1 + pending map
unfolding repeated
repeated-counted window key message now state map found =
    elim (Bool-cases (leb window (now - state.last_emitted_at))) [
      | inl over ↦
          let p =
            pending-set_state key state (record { last_emitted_at = now; suppressed_count = 0 }) map
              found in
          elim (Bool-cases (ltb 0 state.suppressed_count)) [
            | inl some_suppressed ↦ rw (over, some_suppressed) (omega arith)
            | inr none_suppressed ↦ rw (over, none_suppressed) (ground arith)
          ]
      | inr within ↦
          let p =
            pending-set_state key state
              (record state { suppressed_count = state.suppressed_count + 1 }) map found in
          rw within (omega arith)
    ]

warn_within-counted :
    (window : ℕ) (key message : String) (now : ℕ) (map : Suppressions)
    → let (lines, map') = warn_within window key message now map in
      counted lines + pending map' ≡ 1 + pending map
unfolding warn_within
warn_within-counted window key message now map = elim (Option-cases (lookup key map)) [
  | inl fresh ↦ rw (fresh, warn_within) (omega arith)
  | inr (state, found) ↦
      rw (found, warn_within) (repeated-counted window key message now state map found)
]

all_counted-keyed :
    (key : String) (lines : List Line) (more : List (String × Line))
    → all_counted (keyed key lines ++ more) ≡ counted lines + all_counted more
all_counted-keyed key [] more = omega arith
all_counted-keyed key (line ∷ lines) more = let ih = all_counted-keyed key lines more in omega arith

-- Every call is accounted for: over any calls, of any keys and windows, in any order, the warnings
-- that are logged, the numbers of suppressed ones that are reported, and those still to be reported
-- make up the calls and what was to be reported before.
pub warn_all-counted :
    (calls : List Call) (map : Suppressions)
    → let (lines, map') = warn_all calls map in
      all_counted lines + pending map' ≡ length calls + pending map
unfolding warn_all
warn_all-counted [] map = refl
warn_all-counted (call ∷ rest) map =
    let once = warn_within call.window call.key call.message call.now map in
    let here = warn_within-counted call.window call.key call.message call.now map in
    let ih = warn_all-counted rest once.1 in
    let split = all_counted-keyed call.key once.0 (warn_all rest once.1).0 in omega arith
