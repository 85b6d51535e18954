-- ===== src/Tech/Parts/Free.antt =====
-- tech.rs: which parts of a text that is split at a character are free of it.
use Prim.Native.Char.{Char, code}
use hub_kubernetes_agent.Prelude.{
  String, none, some, ◌≡◌, refl, subst, false, nat_eq, strip_prefix, split_once, rsplit_once, inl,
  inr, Bool-cases, Option-cases,
}
use hub_kubernetes_agent.Prelude.Decisions.{some-injective}
use hub_kubernetes_agent.Tech.Texts.{contains_char}

abbrev pub single : Char → String
single d = String.◌∷◌ d ""

pub split_once_absent :
    (d : Char) (s : String) → split_once s (single d) ≡ none → contains_char (code d) s ≡ false
unfolding split_once strip_prefix
split_once_absent d String.[] h = refl
split_once_absent d (String.◌∷◌ c s) h = elim (Bool-cases (nat_eq (code c) (code d))) [
  | inl same ↦ cc (rw (same, split_once, strip_prefix) at h)
  | inr differ ↦ elim (Option-cases (split_once s (single d))) [
    | inl absent ↦ (rw differ (split_once_absent d s absent))
    | inr ((b, a), found) ↦ cc (rw (differ, found, split_once, strip_prefix) at h)
  ]
]

pub split_once_before :
    (d : Char) (s before after : String)
    → split_once s (single d) ≡ some (before, after)
    → contains_char (code d) before ≡ false
unfolding split_once strip_prefix
split_once_before d String.[] before after h = cc
split_once_before d (String.◌∷◌ c s) before after h = elim (Bool-cases (nat_eq (code c) (code d))) [
  | inl same ↦
      let parts : ("", s) ≡ (before, after) =
        some-injective (rw (same, split_once, strip_prefix) at h) in
      subst (λ p. contains_char (code d) p.0 ≡ false) parts refl
  | inr differ ↦ elim (Option-cases (split_once s (single d))) [
    | inl absent ↦ cc (rw (differ, absent, split_once, strip_prefix) at h)
    | inr ((b, a), found) ↦
        let parts : (String.◌∷◌ c b, a) ≡ (before, after) =
          some-injective (rw (differ, found, split_once, strip_prefix) at h) in
        subst (λ p. contains_char (code d) p.0 ≡ false) parts
          (rw differ (split_once_before d s b a found))
  ]
]

pub rsplit_once_absent :
    (d : Char) (s : String) → rsplit_once s (single d) ≡ none → contains_char (code d) s ≡ false
unfolding rsplit_once strip_prefix
rsplit_once_absent d String.[] h = refl
rsplit_once_absent d (String.◌∷◌ c s) h = elim (Option-cases (rsplit_once s (single d))) [
  | inr ((b, a), found) ↦ cc (rw (found, rsplit_once, strip_prefix) at h)
  | inl absent ↦ elim (Bool-cases (nat_eq (code c) (code d))) [
    | inl same ↦ cc (rw (absent, same, rsplit_once, strip_prefix) at h)
    | inr differ ↦ (rw differ (rsplit_once_absent d s absent))
  ]
]

pub rsplit_once_after :
    (d : Char) (s before after : String)
    → rsplit_once s (single d) ≡ some (before, after)
    → contains_char (code d) after ≡ false
unfolding rsplit_once strip_prefix
rsplit_once_after d String.[] before after h = cc
rsplit_once_after d (String.◌∷◌ c s) before after h =
    elim (Option-cases (rsplit_once s (single d))) [
      | inr ((b, a), found) ↦
          let parts : (String.◌∷◌ c b, a) ≡ (before, after) =
            some-injective (rw (found, rsplit_once, strip_prefix) at h) in
          subst (λ p. contains_char (code d) p.1 ≡ false) parts (rsplit_once_after d s b a found)
      | inl absent ↦ elim (Bool-cases (nat_eq (code c) (code d))) [
        | inr differ ↦ cc (rw (absent, differ, rsplit_once, strip_prefix) at h)
        | inl same ↦
            let parts : ("", s) ≡ (before, after) =
              some-injective (rw (absent, same, rsplit_once, strip_prefix) at h) in
            subst (λ p. contains_char (code d) p.1 ≡ false) parts (rsplit_once_absent d s absent)
      ]
    ]
