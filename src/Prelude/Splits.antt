-- ===== src/Prelude/Splits.antt =====
-- What a text is made of that has been split.
use text.Mathlib.TextEquality.{Char-path}
use Prim.Native.Char.{code}
use text.Mathlib.TextLemmas.{nil-append, cons-append}
use hub_kubernetes_agent.Prelude.Decisions.{some-injective}
use hub_kubernetes_agent.Prelude.{
  ℕ, ◌≡◌, ap, sym, ◌∙◌, String, some, true, ◌<>◌, nat_eq, strip_prefix, split_once, rsplit_once,
  arith, inl, inr, Option-cases, Bool-cases,
}

pub nat_eq_same : (m n : ℕ) → nat_eq m n ≡ true → m ≡ n
nat_eq_same m n h = ground arith

pub strip_prefix_lem : (s p rest : String) → strip_prefix s p ≡ some rest → s ≡ p <> rest
unfolding strip_prefix
strip_prefix_lem s String.[] rest h = let same : s ≡ rest = cc in same ∙ sym (nil-append rest)
strip_prefix_lem String.[] (String.◌∷◌ d p) rest h = cc
strip_prefix_lem (String.◌∷◌ c s) (String.◌∷◌ d p) rest h =
    elim (Bool-cases (nat_eq (code c) (code d))) [
      | inl same ↦
          let ih = strip_prefix_lem s p rest (rw same at h) in
          let e : c ≡ d = Char-path c d (nat_eq_same (code c) (code d) same) in
          (λ i. String.◌∷◌ (e i) (ih i)) ∙ sym (cons-append d p rest)
      | inr differ ↦ cc (rw differ at h)
    ]

pub rsplit_once_lem :
    (s sep before after : String)
    → rsplit_once s sep ≡ some (before, after)
    → s ≡ before <> sep <> after
unfolding rsplit_once
rsplit_once_lem String.[] sep before after h = cc
rsplit_once_lem (String.◌∷◌ c s) sep before after h = elim (Option-cases (rsplit_once s sep)) [
  | inr ((b, a), found) ↦
      let ih = rsplit_once_lem s sep b a found in
      let parts : (String.◌∷◌ c b, a) ≡ (before, after) =
        some-injective (rw (found, rsplit_once) at h) in
      ap (String.◌∷◌ c) ih ∙ sym (cons-append c b (sep <> a)) ∙ ap (λ q. q.0 <> sep <> q.1) parts
  | inl absent ↦ elim (Option-cases (strip_prefix (String.◌∷◌ c s) sep)) [
    | inl none_here ↦ cc (rw (absent, none_here, rsplit_once) at h)
    | inr (rest, here) ↦
        let parts : ("", rest) ≡ (before, after) =
          some-injective (rw (absent, here, rsplit_once) at h) in
        strip_prefix_lem (String.◌∷◌ c s) sep rest here
        ∙ sym (nil-append (sep <> rest))
        ∙ ap (λ q. q.0 <> sep <> q.1) parts
  ]
]

pub split_once_lem :
    (s sep before after : String)
    → split_once s sep ≡ some (before, after)
    → s ≡ before <> sep <> after
unfolding split_once
split_once_lem String.[] sep before after h = cc
split_once_lem (String.◌∷◌ c s) sep before after h =
    elim (Option-cases (strip_prefix (String.◌∷◌ c s) sep)) [
      | inr (rest, here) ↦
          let parts : ("", rest) ≡ (before, after) = some-injective (rw (here, split_once) at h) in
          strip_prefix_lem (String.◌∷◌ c s) sep rest here
          ∙ sym (nil-append (sep <> rest))
          ∙ ap (λ q. q.0 <> sep <> q.1) parts
      | inl absent ↦ elim (Option-cases (split_once s sep)) [
        | inl none_later ↦ cc (rw (absent, none_later, split_once) at h)
        | inr ((b, a), found) ↦
            let ih = split_once_lem s sep b a found in
            let parts : (String.◌∷◌ c b, a) ≡ (before, after) =
              some-injective (rw (absent, found, split_once) at h) in
            ap (String.◌∷◌ c) ih
            ∙ sym (cons-append c b (sep <> a))
            ∙ ap (λ q. q.0 <> sep <> q.1) parts
      ]
    ]
