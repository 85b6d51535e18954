-- ===== src/Tech/Detect/First.antt =====
-- tech.rs: what `detect` finds, against the table of rules.
use hub_kubernetes_agent.Prelude.{
  String, Option, none, some, List, [], ◌∷◌, ◌++◌, All, Bool, true, false, ◌||◌, ◌≡◌, sym, ap, ◌∙◌,
  and_then, inl, inr, Option-cases, Bool-cases,
}
use hub_kubernetes_agent.Prelude.Decisions.{some-injective}
use hub_kubernetes_agent.Tech.{Technology}
use hub_kubernetes_agent.Tech.Texts.{starts_with, contains_text, last_segment}
use hub_kubernetes_agent.Tech.Parts.{strip_registry, split_tag, normalize_version}
use hub_kubernetes_agent.Tech.Parts.Split.{
  IsReference, IsLocated, split_tag-IsReference, strip_registry-IsLocated,
}
use hub_kubernetes_agent.Tech.Rules.{Rule, matches, rules}
use hub_kubernetes_agent.Tech.Detect.{
  first_match, technology_of_rule, distroless, unknown, detect_repo, detect,
}

-- The rule is in the table, matches, and no rule in front of it does.
pub record IsFirst (table : List Rule) (name : String) (rule : Rule) : Type 0 where
  before : List Rule
  after : List Rule
  table_is : table ≡ before ++ (rule ∷ after)
  hits : matches rule name ≡ true
  misses : All (λ r. matches r name ≡ false) before

first_match-some :
    (table : List Rule) (name : String) (rule : Rule)
    → first_match table name ≡ some rule
    → IsFirst table name rule
unfolding first_match
first_match-some [] name rule h = cc
first_match-some (r ∷ table) name rule h = elim (Bool-cases (matches r name)) [
  | inl hit ↦
      let same : r ≡ rule = some-injective (rw (hit, first_match) at h) in
      record {
        before = [];
        after = table;
        table_is = ap (λ q. q ∷ table) same;
        hits = ap (λ q. matches q name) (sym same) ∙ hit;
        misses = tt;
      }
  | inr miss ↦
      let ih = first_match-some table name rule (rw (miss, first_match) at h) in
      record {
        before = r ∷ ih.before;
        after = ih.after;
        table_is = ap (λ t. r ∷ t) ih.table_is;
        hits = ih.hits;
        misses = (miss, ih.misses);
      }
]

first_match-none :
    (table : List Rule) (name : String)
    → first_match table name ≡ none
    → All (λ r. matches r name ≡ false) table
unfolding first_match
first_match-none [] name h = tt
first_match-none (r ∷ table) name h = elim (Bool-cases (matches r name)) [
  | inl hit ↦ cc (rw (hit, first_match) at h)
  | inr miss ↦ (miss, first_match-none table name (rw (miss, first_match) at h))
]

module _ (to_lowercase : String → String) where
  abbrev is_distroless : String → Bool
  is_distroless repo =
      starts_with (to_lowercase repo) "distroless/"
      || contains_text (to_lowercase repo) "/distroless/"

  -- What is said of a repository, with a version.
  pub data IsDetected (repo : String) (version : Option String) : Technology → Type 0 where
    without_distribution : is_distroless repo ≡ true → IsDetected repo version (distroless version)
    by_rule :
        (rule : Rule)
        → is_distroless repo ≡ false
        → IsFirst rules (to_lowercase (last_segment repo)) rule
        → IsDetected repo version (technology_of_rule rule version)
    by_name :
        is_distroless repo ≡ false
        → All (λ r. matches r (to_lowercase (last_segment repo)) ≡ false) rules
        → IsDetected repo version (unknown (to_lowercase (last_segment repo)) version)

  detect_repo-IsDetected :
      (repo : String) (version : Option String)
      → IsDetected repo version (detect_repo to_lowercase repo version)
  unfolding detect_repo
  detect_repo-IsDetected repo version = elim (Bool-cases (is_distroless repo)) [
    | inl bare ↦ (rw (bare, detect_repo) (without_distribution bare))
    | inr full ↦ elim (Option-cases (first_match rules (to_lowercase (last_segment repo)))) [
      | inr (rule, found) ↦
          (rw (full, found, detect_repo) (by_rule rule full (first_match-some rules _ rule found)))
      | inl absent ↦
          (rw (full, absent, detect_repo) (by_name full (first_match-none rules _ absent)))
    ]
  ]

  -- How an image is taken apart, and what is then said of it.
  pub record IsRead (image : String) (tech : Technology) : Type 0 where
    reference : String
    repo : String
    tag : Option String
    located : IsLocated image reference
    parted : IsReference reference repo tag
    detected : IsDetected repo (and_then tag (λ t. some (normalize_version t))) tech

  -- Every image is detected by the first rule that matches: its reference is what follows its
  -- first "/", if a registry stands in front of it, else the whole image; the repository is what
  -- stands in front of the first "@" of the reference, and has no version then, else what stands
  -- in front of its last ":", and the version is the normalized tag behind it, unless that has a
  -- "/", else the whole reference, without a version; and the product is distroless if the
  -- repository is in a directory of that name, else that of the first rule of the table that
  -- matches the last segment in lower case, else, where none matches, that segment itself.
  pub detect-IsRead : (image : String) → IsRead image (detect to_lowercase image)
  unfolding detect
  detect-IsRead image =
      let parts = split_tag (strip_registry image) in
      record {
        reference = strip_registry image;
        repo = parts.0;
        tag = parts.1;
        located = strip_registry-IsLocated image;
        parted = split_tag-IsReference (strip_registry image);
        detected = detect_repo-IsDetected parts.0 _;
      }
