-- ===== src/Tech/Parts.antt =====
-- tech.rs: what an image is taken apart into.
pub mod Free
pub mod Split
use hub_kubernetes_agent.Prelude.{
  String, Option, none, some, List, [], ◌∷◌, Bool, ◌||◌, ◌==◌, if◌then◌else◌, unwrap_or, split_once,
  rsplit_once,
}
use hub_kubernetes_agent.Tech.Texts.{contains_char, strip_suffix, trim_start_char}

abbrev pub is_registry : String → Bool
is_registry head = contains_char b'.' head || contains_char b':' head || (head == "localhost")

unfoldable pub strip_registry : String → String
unfolding split_once
strip_registry image = elim (split_once image "/") [
  | some (head, rest) ↦ if is_registry head then rest else image
  | none ↦ image
]

unfoldable pub split_tag : String → String × Option String
unfolding split_once rsplit_once
split_tag repo_with_tag = elim (split_once repo_with_tag "@") [
  | some (repo, digest) ↦ (repo, none)
  | none ↦ elim (rsplit_once repo_with_tag ":") [
    | some (repo, tag) ↦ if contains_char b'/' tag then (repo_with_tag, none) else (repo, some tag)
    | none ↦ (repo_with_tag, none)
  ]
]

abbrev pub version_suffixes : List String
version_suffixes =
    "-alpine" ∷ "-slim" ∷ "-jre" ∷ "-jdk" ∷ "-bullseye" ∷ "-bookworm" ∷ "-distroless" ∷ "-ubi"
    ∷ "-ubi8" ∷ "-ubi9" ∷ []

-- The loop over the suffixes.
unfoldable pub strip_suffixes : List String → String → String
unfolding strip_suffix
strip_suffixes [] v = v
strip_suffixes (suffix ∷ suffixes) v = strip_suffixes suffixes (unwrap_or (strip_suffix v suffix) v)

unfoldable pub normalize_version : String → String
unfolding trim_start_char strip_suffixes
normalize_version tag = strip_suffixes version_suffixes (trim_start_char b'v' tag)
