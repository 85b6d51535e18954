-- ===== src/Tech/Detect.antt =====
-- tech.rs: `detect`. `to_lowercase`, which stands on the tables of Unicode, is a parameter.
pub mod First
pub mod Registry
use hub_kubernetes_agent.Prelude.{
  String, Option, none, some, List, [], ◌∷◌, ◌||◌, ◌==◌, if◌then◌else◌, and_then,
}
use hub_kubernetes_agent.Tech.{Technology}
use hub_kubernetes_agent.Tech.Texts.{starts_with, contains_text, last_segment}
use hub_kubernetes_agent.Tech.Parts.{strip_registry, split_tag, normalize_version}
use hub_kubernetes_agent.Tech.Rules.{Rule, matches, rules}

-- The loop over the rules: the first that matches.
unfoldable pub first_match : List Rule → String → Option Rule
unfolding matches
first_match [] name = none
first_match (rule ∷ later) name =
    let rest = first_match later name in if matches rule name then some rule else rest

-- `if text.is_empty() { None } else { Some(text.to_string()) }`
abbrev pub some_text : String → Option String
some_text text = if text == "" then none else some text

abbrev pub product_subtype : String → Option String
product_subtype product = if product == "postgres" then some "postgresql" else none

unfoldable pub technology_of_rule : Rule → Option String → Technology
technology_of_rule rule version = record {
  vendor = some rule.vendor;
  product = some rule.product;
  version = version;
  language = some_text rule.language;
  source = "image";
  subtype = product_subtype rule.product;
}

abbrev pub distroless : Option String → Technology
distroless version = record {
  vendor = some "distroless";
  product = some "distroless";
  version = version;
  language = none;
  source = "image";
  subtype = none;
}

abbrev pub unknown : String → Option String → Technology
unknown name version = record {
  vendor = none;
  product = some name;
  version = version;
  language = none;
  source = "image";
  subtype = none;
}

-- What is known once the registry and the tag are off.
unfoldable pub detect_repo : (String → String) → String → Option String → Technology
unfolding starts_with contains_text last_segment first_match technology_of_rule rules
detect_repo to_lowercase repo version =
    let repo_lower = to_lowercase repo in
    let name = to_lowercase (last_segment repo) in
    if starts_with repo_lower "distroless/" || contains_text repo_lower "/distroless/"
    then distroless version
    else elim (first_match rules name) [
      | some rule ↦ technology_of_rule rule version
      | none ↦ unknown name version
    ]

unfoldable pub detect : (String → String) → String → Technology
unfolding strip_registry split_tag normalize_version detect_repo
detect to_lowercase image =
    let (repo, tag) = split_tag (strip_registry image) in
    detect_repo to_lowercase repo (and_then tag (λ t. some (normalize_version t)))
