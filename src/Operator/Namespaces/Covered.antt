-- ===== src/Operator/Namespaces/Covered.antt =====
-- operator.rs: which names a pattern covers, said without the tests of the code.
use Prim.Native.Char.{Char, code}
use text.Mathlib.Text.{starts_with}
use text.Mathlib.TextEquality.{Char-path, starts_with_iff}
use text.Mathlib.TextLemmas.{nil-append, cons-append}
use hub_kubernetes_agent.Prelude.Decisions.{some-injective, text_differs, or_false}
use hub_kubernetes_agent.Prelude.Splits.{nat_eq_same}
use hub_kubernetes_agent.Prelude.{
  ◌≡◌, ◌≢◌, ◌↔◌, ◌∙◌, sym, ap, refl, subst, String, none, some, List, [], ◌∷◌, Memᴰ, true, false,
  ◌==◌, ◌<>◌, eq_iff, eq_refl, nat_eq, any, strip_suffix_char, Bool-cases, Option-cases, inl, inr,
}
use hub_kubernetes_agent.Operator.Namespaces.{namespace_matches_pattern, namespace_is_excluded}

-- A pattern covers its own text; one that ends in "*" covers instead every name that begins with what
-- stands in front of it, and nothing if that is empty.
pub data Covers : String → String → Type 0 where
  itself : (name : String) → ((stem : String) → name ≢ stem <> "*") → Covers name name
  prefixed : (stem rest : String) → stem ≢ "" → Covers (stem <> "*") (stem <> rest)

strip_star : (s stem : String) → strip_suffix_char b'*' s ≡ some stem → s ≡ stem <> "*"
unfolding strip_suffix_char
strip_star String.[] stem h = cc
strip_star (String.◌∷◌ c String.[]) stem h = elim (Bool-cases (nat_eq (code c) b'*')) [
  | inl star ↦
      let empty : "" ≡ stem = some-injective (rw (star, strip_suffix_char) at h) in
      let e : c ≡ "*" = Char-path c "*" (nat_eq_same (code c) b'*' star) in
      (λ i. String.◌∷◌ (e i) "") ∙ sym (nil-append "*") ∙ ap (λ t. t <> "*") empty
  | inr other ↦ cc (rw (other, strip_suffix_char) at h)
]
strip_star (String.◌∷◌ c (String.◌∷◌ d s)) stem h =
    elim (Option-cases (strip_suffix_char b'*' (String.◌∷◌ d s))) [
      | inl absent ↦ cc (rw (absent, strip_suffix_char) at h)
      | inr (rest, found) ↦
          let ih = strip_star (String.◌∷◌ d s) rest found in
          let e : String.◌∷◌ c rest ≡ stem = some-injective (rw (found, strip_suffix_char) at h) in
          ap (String.◌∷◌ c) ih ∙ sym (cons-append c rest "*") ∙ ap (λ t. t <> "*") e
    ]

strip_longer :
    (c : Char) (s stem : String)
    → strip_suffix_char b'*' s ≡ some stem
    → strip_suffix_char b'*' (String.◌∷◌ c s) ≡ some (String.◌∷◌ c stem)
unfolding strip_suffix_char
strip_longer c String.[] stem h = cc
strip_longer c (String.◌∷◌ d s) stem h = rw (h, strip_suffix_char)

starred : (stem : String) → strip_suffix_char b'*' (stem <> "*") ≡ some stem
unfolding strip_suffix_char
starred String.[] = ap (strip_suffix_char b'*') (nil-append "*")
starred (String.◌∷◌ c stem) =
    ap (strip_suffix_char b'*') (cons-append c stem "*")
    ∙ strip_longer c (stem <> "*") stem (starred stem)

starts : (name stem : String) → stem ≢ "" → starts_with name stem ≡ true → Covers (stem <> "*") name
starts name stem full begins =
    let (rest, e) = (starts_with_iff name stem).0 begins in
    subst (λ n. Covers (stem <> "*") n) e (prefixed stem rest full)

matches-Covers :
    (name pattern' : String) → namespace_matches_pattern name pattern' ≡ true → Covers pattern' name
unfolding namespace_matches_pattern
matches-Covers name pattern' h = elim (Option-cases (strip_suffix_char b'*' pattern')) [
  | inl plain ↦
      let e : name ≡ pattern' =
        (eq_iff name pattern').0 (rw (plain, namespace_matches_pattern) at h) in
      subst (λ n. Covers pattern' n) (sym e)
        (itself pattern' (λ stem k. starless pattern' stem plain k))
  | inr (stem, found) ↦ elim (Bool-cases (stem == "")) [
    | inl empty ↦ cc (rw (found, empty, namespace_matches_pattern) at h)
    | inr full ↦
        subst (λ p. Covers p name) (sym (strip_star pattern' stem found))
          (starts name stem (text_differs stem "" full)
            (rw (found, full, namespace_matches_pattern) at h))
  ]
]
  where
    starless : (p stem : String) → strip_suffix_char b'*' p ≡ none → p ≡ stem <> "*" → ⊥
    starless p stem plain k =
        let e : strip_suffix_char b'*' p ≡ some stem =
          ap (strip_suffix_char b'*') k ∙ starred stem in
        cc

Covers-matches :
    (pattern' name : String) → Covers pattern' name → namespace_matches_pattern name pattern' ≡ true
unfolding namespace_matches_pattern
Covers-matches _ _ (itself name starless) = elim (Option-cases (strip_suffix_char b'*' name)) [
  | inl plain ↦ rw (plain, namespace_matches_pattern) (eq_refl name)
  | inr (stem, found) ↦ absurd (starless stem (strip_star name stem found))
]
Covers-matches _ _ (prefixed stem rest full) = elim (Bool-cases (stem == "")) [
  | inl empty ↦ absurd (full ((eq_iff stem "").0 empty))
  | inr more ↦
      rw (starred stem, more, namespace_matches_pattern)
        ((starts_with_iff (stem <> rest) stem).1 (rest, refl))
]

-- A name is not excluded just if no pattern of the list covers it.
pub namespace_is_excluded-Covers :
    (name : String) (excluded : List String)
    → (namespace_is_excluded name excluded ≡ false)
      ↔ ((pattern' : String) → Memᴰ pattern' excluded → Covers pattern' name → ⊥)
unfolding namespace_is_excluded
namespace_is_excluded-Covers name excluded = (none_covers excluded, not_covered excluded)
  where
    none_covers :
        (patterns : List String)
        → any (λ p. namespace_matches_pattern name p) patterns ≡ false
        → (pattern' : String) → Memᴰ pattern' patterns
        → Covers pattern' name
        → ⊥
    none_covers [] h p m k = elim m [ ]
    none_covers (q ∷ rest) h p (Memᴰ.head same) k =
        let no = (or_false {a = namespace_matches_pattern name q} h).0 in
        let yes = Covers-matches p name k in
        let yes_q : namespace_matches_pattern name q ≡ true =
          subst (λ r. namespace_matches_pattern name r ≡ true) same yes in
        cc
    none_covers (q ∷ rest) h p (Memᴰ.tail m) k =
        none_covers rest (or_false {a = namespace_matches_pattern name q} h).1 p m k

    not_covered :
        (patterns : List String)
        → ((pattern' : String) → Memᴰ pattern' patterns → Covers pattern' name → ⊥)
        → any (λ p. namespace_matches_pattern name p) patterns ≡ false
    not_covered [] free = refl
    not_covered (q ∷ rest) free = elim (Bool-cases (namespace_matches_pattern name q)) [
      | inl hit ↦ absurd (free q (Memᴰ.head refl) (matches-Covers name q hit))
      | inr miss ↦ rw miss (not_covered rest (λ p m k. free p (Memᴰ.tail m) k))
    ]
