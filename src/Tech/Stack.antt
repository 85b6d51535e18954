-- ===== src/Tech/Stack.antt =====
-- tech.rs: `detect_application_stack_from_image`.
use hub_kubernetes_agent.Prelude.{String, Option, none, some, ◌||◌, ◌==◌, if◌then◌else◌}
use hub_kubernetes_agent.Tech.{Technology}
use hub_kubernetes_agent.Tech.Texts.{starts_with, ends_with, contains_text, last_segment}
use hub_kubernetes_agent.Tech.Parts.{strip_registry, split_tag}

-- A technology without a version, which an image tells of.
abbrev pub stack : Option String → String → Option String → String → Technology
stack vendor product language subtype = record {
  vendor = vendor;
  product = some product;
  version = none;
  language = language;
  source = "image";
  subtype = some subtype;
}

unfoldable pub detect_application_stack_from_image : (String → String) → String → Option Technology
unfolding starts_with ends_with contains_text last_segment strip_registry split_tag
detect_application_stack_from_image to_lowercase image =
    let lower_full = to_lowercase image in
    let repo_lower = to_lowercase (strip_registry (split_tag image).0) in
    let name = last_segment repo_lower in
    if starts_with lower_full "container-registry.oracle.com/database/"
    then some (stack (some "oracle") "oracle-database" none "oracle_database")
    else if starts_with repo_lower "gvenzl/oracle-"
    then some (stack (some "gvenzl") "oracle-database" none "oracle_database")
    else if (repo_lower == "oracle/database") || ends_with repo_lower "/oracle/database"
    then some (stack (some "oracle") "oracle-database" none "oracle_database")
    else if contains_text repo_lower "springboot" || contains_text repo_lower "spring-boot"
    then some (stack none "spring-boot" (some "Java") "spring_boot")
    else if starts_with name "angular-" || contains_text name "-ng-" || starts_with name "ng-"
    then some (stack none "angular" none "angular")
    else none
