-- ===== src/Agent/Warnings/Silent.antt =====
-- main.rs: no warning repeats early.
use hub_kubernetes_agent.Prelude.{
  ℕ, ◌+◌, ◌-◌, ◌<◌, ◌≡◌, refl, sym, subst, ◌∙◌, String, some, List, [], ◌∷◌, ◌++◌, false, leb, ◌==◌,
  eq_iff, if◌then◌else◌, arith, lookup, All, Bool-cases, Option-cases, inl, inr,
}
use hub_kubernetes_agent.Agent.Warnings.{
  SuppressionState, Suppressions, Line, set_state, repeated, warn_within, Call, keyed, warn_all,
}

-- The lines of a key.
abbrev pub lines_of : String → List (String × Line) → List Line
lines_of key [] = []
lines_of key ((k, line) ∷ rest) =
    let later = lines_of key rest in if k == key then line ∷ later else later

lookup-set_state :
    (key : String) (old state : SuppressionState) (map : Suppressions)
    → lookup key map ≡ some old
    → lookup key (set_state key state map) ≡ some state
unfolding set_state
lookup-set_state key old state [] found = cc
lookup-set_state key old state ((k, here) ∷ rest) found = elim (Bool-cases (k == key)) [
  | inl same ↦ rw (same, same) refl
  | inr other ↦ rw (other, other) (lookup-set_state key old state rest (rw other at found))
]

repeated-within :
    (window : ℕ) (key message : String) (now : ℕ) (state : SuppressionState) (map : Suppressions)
    → now - state.last_emitted_at < window
    → repeated window key message now state map
      ≡ ([], set_state key (record state { suppressed_count = state.suppressed_count + 1 }) map)
unfolding repeated
repeated-within window key message now state map early =
    let within : leb window (now - state.last_emitted_at) ≡ false = ground arith in rw within refl

warn_within-silent :
    (window : ℕ) (key message : String) (now : ℕ) (state : SuppressionState) (map : Suppressions)
    → lookup key map ≡ some state
    → now - state.last_emitted_at < window
    → warn_within window key message now map
      ≡ ([], set_state key (record state { suppressed_count = state.suppressed_count + 1 }) map)
unfolding warn_within
warn_within-silent window key message now state map found early =
    rw (found, warn_within) (repeated-within window key message now state map early)

lookup-set_other :
    (k key : String) (state : SuppressionState) (map : Suppressions)
    → (k == key) ≡ false
    → lookup key (set_state k state map) ≡ lookup key map
unfolding set_state
lookup-set_other k key state [] apart = refl
lookup-set_other k key state ((j, here) ∷ rest) apart = elim (Bool-cases (j == k)) [
  | inl same ↦ let e : j ≡ k = (eq_iff j k).0 same in rw (same, e, apart) refl
  | inr other ↦ rw (other, lookup-set_other k key state rest apart) refl
]

lookup-warn_other :
    (window : ℕ) (k key message : String) (now : ℕ) (map : Suppressions)
    → (k == key) ≡ false
    → lookup key (warn_within window k message now map).1 ≡ lookup key map
unfolding warn_within repeated
lookup-warn_other window k key message now map apart = elim (Option-cases (lookup k map)) [
  | inl fresh ↦ rw (fresh, warn_within, apart) refl
  | inr (state, found) ↦ elim (Bool-cases (leb window (now - state.last_emitted_at))) [
    | inl over ↦ rw (found, warn_within, over) (lookup-set_other k key _ map apart)
    | inr within ↦ rw (found, warn_within, within) (lookup-set_other k key _ map apart)
  ]
]

lines_of-other :
    (k key : String) (lines : List Line) (more : List (String × Line))
    → (k == key) ≡ false
    → lines_of key (keyed k lines ++ more) ≡ lines_of key more
lines_of-other k key [] more apart = refl
lines_of-other k key (line ∷ lines) more apart = rw apart (lines_of-other k key lines more apart)

-- A call comes before the window of its key, which has logged at a time, is over.
abbrev pub Early : String → ℕ → Call → Type 0
Early key logged call = call.key ≡ key → call.now - logged < call.window

-- After a key has logged, it logs nothing more, whatever is called and in whatever order, as long as
-- each call of that key comes within its window of the time at which it logged.
pub warn_all-silent :
    (key : String) (calls : List Call) (map : Suppressions) (state : SuppressionState)
    → lookup key map ≡ some state
    → All (Early key state.last_emitted_at) calls
    → lines_of key (warn_all calls map).0 ≡ []
unfolding warn_all
warn_all-silent key [] map state found early = refl
warn_all-silent key (call ∷ rest) map state found (now_early, rest_early) =
    elim (Bool-cases (call.key == key)) [
      | inl same ↦
          let e : call.key ≡ key = (eq_iff call.key key).0 same in
          let next : SuppressionState = record state {
            suppressed_count = state.suppressed_count + 1;
          } in
          let here : lookup call.key map ≡ some state =
            subst (λ k. lookup k map ≡ some state) (sym e) found in
          let kept : lookup key (set_state call.key next map) ≡ some next =
            subst (λ k. lookup k (set_state call.key next map) ≡ some next) e
              (lookup-set_state call.key state next map here) in
          rw
            (warn_within-silent call.window call.key call.message call.now state map here
              (now_early e))
            (warn_all-silent key rest (set_state call.key next map) next kept rest_early)
      | inr other ↦
          lines_of-other call.key key _ _ other
          ∙ warn_all-silent key rest _ state
              (lookup-warn_other call.window call.key key call.message call.now map other ∙ found)
              rest_early
    ]
