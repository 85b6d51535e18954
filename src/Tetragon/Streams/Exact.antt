-- ===== src/Tetragon/Streams/Exact.antt =====
-- tetragon.rs: the streams after a discovery.
use hub_kubernetes_agent.Prelude.{
  ◌≡◌, refl, sym, subst, ap, ◌∙◌, String, Option, none, some, List, [], ◌∷◌, filter, Bool, true,
  false, not, ◌||◌, ◌==◌, eq_iff, eq_refl, if◌then◌else◌, lookup, contains, is_some, is_empty,
  Bool-cases, Option-cases, inl, inr,
}
use hub_kubernetes_agent.Prelude.Decisions.{some-injective}
use hub_kubernetes_agent.Tetragon.Streams.{
  discovered, StreamEntry, Streams, State, fallback_stream_key, is_discovered, stream_exists,
  remove_key, register_stream, remove_stream, discovered_keys, has_fallback_stream, spawn_stream,
  remove_streams, spawn_streams, remove_fallback, reconcile_endpoints, refresh_health,
}

same_key : (a b : String) → (a == b) ≡ true → a ≡ b
same_key a b h = (eq_iff a b).0 h

not_both : (b : Bool) → b ≡ true → b ≡ false → ⊥
not_both b p q = cc

lookup-remove_key :
    (key k : String) (streams : Streams)
    → lookup k (remove_key key streams) ≡ (if key == k then none else lookup k streams)
lookup-remove_key key k [] = elim (Bool-cases (key == k)) [
  | inl same ↦ rw same refl
  | inr other ↦ rw other refl
]
lookup-remove_key key k ((j, entry) ∷ rest) =
    let ih = lookup-remove_key key k rest in
    elim (Bool-cases (key == k)) [
      | inl gone ↦ elim (Bool-cases (j == key)) [
        | inl removed ↦ rw (removed, gone) (rw gone at ih)
        | inr stays ↦ elim (Bool-cases (j == k)) [
          | inl here ↦ absurd (
              not_both (j == key) ((eq_iff j key).1 (same_key j k here ∙ sym (same_key key k gone)))
                stays)
          | inr there ↦ rw (stays, gone, there) (rw gone at ih)
        ]
      ]
      | inr kept ↦ elim (Bool-cases (j == key)) [
        | inl removed ↦ elim (Bool-cases (j == k)) [
          | inl here ↦ absurd (
              not_both (key == k)
                ((eq_iff key k).1 (sym (same_key j key removed) ∙ same_key j k here)) kept)
          | inr there ↦ rw (removed, kept, there) (rw kept at ih)
        ]
        | inr stays ↦ elim (Bool-cases (j == k)) [
          | inl here ↦ rw (stays, kept, here) refl
          | inr there ↦ rw (stays, kept, there) (rw kept at ih)
        ]
      ]
    ]

lookup-remove_stream :
    (key k : String) (state : State)
    → lookup k (remove_stream key state).streams
      ≡ (if key == k then none else lookup k state.streams)
unfolding remove_stream refresh_health
lookup-remove_stream key k state = elim (Option-cases (lookup key state.streams)) [
  | inr (entry, found) ↦ rw (found, remove_stream) (lookup-remove_key key k state.streams)
  | inl absent ↦ elim (Bool-cases (key == k)) [
    | inl same ↦
        rw (absent, same, remove_stream)
          (subst (λ j. lookup j state.streams ≡ none) (same_key key k same) absent)
    | inr other ↦ rw (absent, other, remove_stream) refl
  ]
]

-- The streams that are named are gone, and the others are as before.
lookup-remove_streams :
    (keys : List String) (k : String) (state : State)
    → lookup k (remove_streams keys state).streams
      ≡ (if contains keys k then none else lookup k state.streams)
unfolding remove_streams
lookup-remove_streams [] k state = refl
lookup-remove_streams (key ∷ rest) k state =
    let one = lookup-remove_stream key k state in
    let ih = lookup-remove_streams rest k (remove_stream key state) in
    elim (Bool-cases (contains rest k)) [
      | inl later ↦ elim (Bool-cases (key == k)) [
        | inl here ↦ rw here (rw later at ih)
        | inr not_here ↦ rw (not_here, later) (rw later at ih)
      ]
      | inr not_later ↦ elim (Bool-cases (key == k)) [
        | inl here ↦ rw here (rw not_later at ih ∙ rw here at one)
        | inr not_here ↦ rw (not_here, not_later) (rw not_later at ih ∙ rw not_here at one)
      ]
    ]

stream_exists-spawn :
    (address k : String) (state : State)
    → stream_exists k
        (if stream_exists address state then state else spawn_stream address discovered state)
      ≡ ((address == k) || stream_exists k state)
unfolding stream_exists spawn_stream register_stream refresh_health
stream_exists-spawn address k state = elim (Option-cases (lookup address state.streams)) [
  | inr (entry, found) ↦ elim (Bool-cases (address == k)) [
    | inl same ↦
        rw (found, same)
          (subst (λ j. is_some (lookup j state.streams) ≡ true) (same_key address k same)
            (ap is_some found))
    | inr other ↦ rw (found, other) refl
  ]
  | inl absent ↦ elim (Bool-cases (address == k)) [
    | inl same ↦ rw (absent, same) refl
    | inr other ↦
        let kept = lookup-remove_key address k state.streams in
        rw (absent, other) (ap is_some (rw other at kept))
  ]
]

stream_exists-spawn_streams :
    (endpoints : List String) (k : String) (state : State)
    → stream_exists k (spawn_streams endpoints state)
      ≡ (contains endpoints k || stream_exists k state)
unfolding spawn_streams
stream_exists-spawn_streams [] k state = refl
stream_exists-spawn_streams (address ∷ rest) k state =
    stream_exists-spawn_streams rest k _
    ∙ ap (λ b. contains rest k || b) (stream_exists-spawn address k state)
    ∙ shuffled (contains rest k) (address == k) (stream_exists k state)
  where
    shuffled : (a b c : Bool) → (a || (b || c)) ≡ ((b || a) || c)
    shuffled true true c = refl
    shuffled true false c = refl
    shuffled false true c = refl
    shuffled false false c = refl

-- The fallback stream, and it alone, has the fallback source.
abbrev pub WellKeyed : Streams → Type 0
WellKeyed streams =
    (k : String) (entry : StreamEntry)
    → lookup k streams ≡ some entry
    → is_discovered entry ≡ not (fallback_stream_key == k)

contains-discovered_keys :
    (streams : Streams) (k : String) (entry : StreamEntry)
    → lookup k streams ≡ some entry
    → is_discovered entry ≡ true
    → contains (discovered_keys streams) k ≡ true
unfolding discovered_keys
contains-discovered_keys [] k entry found known = cc
contains-discovered_keys ((j, here) ∷ rest) k entry found known = elim (Bool-cases (j == k)) [
  | inl same ↦
      let e : here ≡ entry = some-injective (rw same at found) in
      let known' : is_discovered here ≡ true = ap is_discovered e ∙ known in rw (known', same) refl
  | inr other ↦
      let ih = contains-discovered_keys rest k entry (rw other at found) known in
      elim (Bool-cases (is_discovered here)) [
        | inl more ↦ rw (more, other) ih
        | inr less ↦ rw less ih
      ]
]

contains-filter :
    (keep : String → Bool) (keys : List String) (k : String)
    → contains keys k ≡ true
    → keep k ≡ true
    → contains (filter keep keys) k ≡ true
contains-filter keep [] k there kept = cc
contains-filter keep (key ∷ rest) k there kept = elim (Bool-cases (key == k)) [
  | inl same ↦
      let kept' : keep key ≡ true = subst (λ j. keep j ≡ true) (sym (same_key key k same)) kept in
      rw (kept', same) refl
  | inr other ↦
      let ih = contains-filter keep rest k (rw other at there) kept in
      elim (Bool-cases (keep key)) [ inl more ↦ rw (more, other) ih | inr less ↦ rw less ih ]
]

none_unless : {A : Type 0} (b : Bool) (o : Option A) → o ≡ none → (if b then none else o) ≡ none
none_unless true o e = refl
none_unless false o e = e

some_if :
    {A : Type 0} (b : Bool) (o : Option A) (a : A) → (if b then none else o) ≡ some a → o ≡ some a
some_if true o a e = cc
some_if false o a e = e

remove_fallback-none :
    (k : String) (state : State)
    → lookup k state.streams ≡ none
    → lookup k (remove_fallback state).streams ≡ none
unfolding remove_fallback
remove_fallback-none k state absent = elim (Bool-cases (has_fallback_stream state)) [
  | inl has ↦ rw has (
      lookup-remove_stream fallback_stream_key k state
      ∙ none_unless (fallback_stream_key == k) (lookup k state.streams) absent)
  | inr has_not ↦ rw has_not absent
]

remove_fallback-gone :
    (state : State)
    → ((entry : StreamEntry)
        → lookup fallback_stream_key state.streams ≡ some entry
        → is_discovered entry ≡ false)
    → lookup fallback_stream_key (remove_fallback state).streams ≡ none
unfolding remove_fallback has_fallback_stream
remove_fallback-gone state falls_back =
    elim (Option-cases (lookup fallback_stream_key state.streams)) [
      | inl absent ↦ rw (absent, remove_fallback) absent
      | inr (entry, found) ↦
          rw (found, remove_fallback, falls_back entry found)
            (lookup-remove_key fallback_stream_key fallback_stream_key state.streams)
    ]

abbrev stale_keys : List String → State → List String
stale_keys endpoints state =
    filter (λ key. not (contains endpoints key)) (discovered_keys state.streams)

-- What is no endpoint has no stream once the stale ones and the fallback are gone.
others_gone :
    (endpoints : List String) (k : String) (state : State)
    → WellKeyed state.streams
    → contains endpoints k ≡ false
    → lookup k (remove_fallback (remove_streams (stale_keys endpoints state) state)).streams ≡ none
others_gone endpoints k state keyed foreign =
    let stale = stale_keys endpoints state in
    let kept = remove_streams stale state in
    let after = lookup-remove_streams stale k state in
    elim (Option-cases (lookup k state.streams)) [
      | inl absent ↦
          remove_fallback-none k kept
            (after ∙ none_unless (contains stale k) (lookup k state.streams) absent)
      | inr (entry, found) ↦ elim (Bool-cases (fallback_stream_key == k)) [
        | inl falls_back ↦
            subst (λ j. lookup j (remove_fallback kept).streams ≡ none)
              (same_key fallback_stream_key k falls_back)
              (remove_fallback-gone kept (λ e there.
                keyed fallback_stream_key e (
                  some_if (contains stale fallback_stream_key)
                    (lookup fallback_stream_key state.streams) e
                    (sym (lookup-remove_streams stale fallback_stream_key state) ∙ there))
                ∙ ap not (eq_refl fallback_stream_key)))
        | inr ordinary ↦
            let known : is_discovered entry ≡ true = keyed k entry found ∙ ap not ordinary in
            let listed : contains stale k ≡ true =
              contains-filter (λ key. not (contains endpoints key)) (discovered_keys state.streams)
                k (contains-discovered_keys state.streams k entry found known) (ap not foreign) in
            remove_fallback-none k kept (rw listed at after)
      ]
    ]

none_exists :
    (k : String) (state : State) → lookup k state.streams ≡ none → stream_exists k state ≡ false
unfolding stream_exists
none_exists k state absent = ap is_some absent

-- A discovery that finds endpoints leaves streams for them and for nothing else: where the
-- fallback stream, and it alone, had the fallback source, a key has a stream after it if and only if
-- it is one of the endpoints.
pub reconcile_endpoints-exact :
    (endpoints : List String) (state : State) (k : String)
    → is_empty endpoints ≡ false
    → WellKeyed state.streams
    → stream_exists k (reconcile_endpoints endpoints state) ≡ contains endpoints k
unfolding reconcile_endpoints
reconcile_endpoints-exact endpoints state k found keyed =
    let cleared = remove_fallback (remove_streams (stale_keys endpoints state) state) in
    let spawned : stream_exists k (spawn_streams endpoints cleared)
        ≡ (contains endpoints k || stream_exists k cleared) =
      stream_exists-spawn_streams endpoints k cleared in
    rw found (
      spawned ∙ elim (Bool-cases (contains endpoints k)) [
        | inl listed ↦ rw listed refl
        | inr foreign ↦
            rw foreign (none_exists k cleared (others_gone endpoints k state keyed foreign))
      ])
