-- ===== src/Tech/Parts/Split.antt =====
-- tech.rs: the parts that an image is taken apart into make it up.
use Prim.Native.Char.{code}
use text.Mathlib.TextLemmas.{nil-append, cons-append}
use hub_kubernetes_agent.Prelude.{
  String, Option, none, some, ◌≡◌, sym, subst, ap, ◌∙◌, true, false, ◌<>◌, nat_eq, strip_prefix,
  split_once, rsplit_once, if◌then◌else◌, inl, inr, Bool-cases, Option-cases,
}
use hub_kubernetes_agent.Prelude.Decisions.{or_false}
use hub_kubernetes_agent.Prelude.Splits.{split_once_lem, rsplit_once_lem}
use hub_kubernetes_agent.Tech.Texts.{contains_char}
use hub_kubernetes_agent.Tech.Parts.Free.{
  split_once_absent, split_once_before, rsplit_once_absent, rsplit_once_after,
}
use hub_kubernetes_agent.Tech.Parts.{is_registry, strip_registry, split_tag}

-- A first "/" is where a text is split.
split_once_first :
    (host rest : String)
    → contains_char b'/' host ≡ false
    → split_once (host <> "/" <> rest) "/" ≡ some (host, rest)
unfolding split_once strip_prefix
split_once_first String.[] rest h =
    ap (λ t. split_once t "/")
      (nil-append ("/" <> rest) ∙ cons-append "/" "" rest ∙ ap (String.◌∷◌ "/") (nil-append rest))
split_once_first (String.◌∷◌ c host) rest h =
    let (differ, later) = or_false {a = nat_eq (code c) b'/'} h in
    let ih = split_once_first host rest later in
    ap (λ t. split_once t "/") (cons-append c host ("/" <> rest))
    ∙ (rw (differ, ih, split_once, strip_prefix))

-- Without a registry in front, a registry is what is stripped.
pub strip_registry-registry :
    (host rest : String)
    → contains_char b'/' host ≡ false
    → is_registry host ≡ true
    → strip_registry (host <> "/" <> rest) ≡ rest
unfolding strip_registry
strip_registry-registry host rest h known = rw (split_once_first host rest h, known, strip_registry)

-- What follows the last ":" of a reference, if there is one, is a path behind a port, and no tag.
pub data IsUntagged : String → Type 0 where
  without_colon : (repo : String) → contains_char b':' repo ≡ false → IsUntagged repo
  port_only :
      (host path : String)
      → contains_char b':' path ≡ false
      → contains_char b'/' path ≡ true
      → IsUntagged (host <> ":" <> path)

-- What a reference to an image is made of: its repository, and its tag if it has no digest.
pub data IsReference : String → String → Option String → Type 0 where
  pinned :
      (repo digest : String)
      → contains_char b'@' repo ≡ false
      → IsReference (repo <> "@" <> digest) repo none
  tagged :
      (repo tag : String)
      → contains_char b'@' (repo <> ":" <> tag) ≡ false
      → contains_char b':' tag ≡ false
      → contains_char b'/' tag ≡ false
      → IsReference (repo <> ":" <> tag) repo (some tag)
  bare :
      (repo : String)
      → contains_char b'@' repo ≡ false
      → IsUntagged repo
      → IsReference repo repo none

tag_case :
    (reference before after : String)
    → contains_char b'@' reference ≡ false
    → rsplit_once reference ":" ≡ some (before, after)
    → let parts : String × Option String =
        if contains_char b'/' after then (reference, none) else (before, some after) in
      IsReference reference parts.0 parts.1
tag_case reference before after unpinned parted =
    let e = rsplit_once_lem reference ":" before after parted in
    let last = rsplit_once_after ":" reference before after parted in
    elim (Bool-cases (contains_char b'/' after)) [
      | inl port ↦
          (rw port
            (bare reference unpinned (subst IsUntagged (sym e) (port_only before after last port))))
      | inr plain ↦
          (rw plain (
            subst (λ r. IsReference r before (some after)) (sym e)
              (tagged before after (subst (λ r. contains_char b'@' r ≡ false) e unpinned) last
                plain)))
    ]

-- What split_tag splits makes up the reference.
pub split_tag-IsReference :
    (reference : String) → IsReference reference (split_tag reference).0 (split_tag reference).1
unfolding split_tag
split_tag-IsReference reference = elim (Option-cases (split_once reference "@")) [
  | inr ((before, digest), at) ↦
      (rw (at, split_tag)
        (subst (λ r. IsReference r before none)
          (sym (split_once_lem reference "@" before digest at))
          (pinned before digest (split_once_before "@" reference before digest at))))
  | inl absent ↦
      let unpinned = split_once_absent "@" reference absent in
      elim (Option-cases (rsplit_once reference ":")) [
        | inl untagged ↦
            (rw (absent, untagged, split_tag)
              (bare reference unpinned
                (without_colon reference (rsplit_once_absent ":" reference untagged))))
        | inr ((before, after), parted) ↦
            (rw (absent, parted, split_tag) (tag_case reference before after unpinned parted))
      ]
]

-- An image, and what is left of it without its registry, which stands in front of the first "/".
pub data IsLocated : String → String → Type 0 where
  registered :
      (host rest : String)
      → contains_char b'/' host ≡ false
      → is_registry host ≡ true
      → IsLocated (host <> "/" <> rest) rest
  local :
      (first rest : String)
      → contains_char b'/' first ≡ false
      → is_registry first ≡ false
      → IsLocated (first <> "/" <> rest) (first <> "/" <> rest)
  single_name : (image : String) → contains_char b'/' image ≡ false → IsLocated image image

pub strip_registry-IsLocated : (image : String) → IsLocated image (strip_registry image)
unfolding strip_registry
strip_registry-IsLocated image = elim (Option-cases (split_once image "/")) [
  | inl whole ↦ (rw (whole, strip_registry) (single_name image (split_once_absent "/" image whole)))
  | inr ((head, rest), parted) ↦
      let e = split_once_lem image "/" head rest parted in
      let first = split_once_before "/" image head rest parted in
      elim (Bool-cases (is_registry head)) [
        | inr foreign ↦
            (rw (parted, foreign, strip_registry)
              (subst (λ t. IsLocated t t) (sym e) (local head rest first foreign)))
        | inl known ↦
            (rw (parted, known, strip_registry)
              (subst (λ t. IsLocated t rest) (sym e) (registered head rest first known)))
      ]
]
