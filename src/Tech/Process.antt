-- ===== src/Tech/Process.antt =====
-- tech.rs: `detect_from_process` and `refine_spring_boot`.
use hub_kubernetes_agent.Prelude.{
  ℕ, String, Option, none, some, List, [], ◌∷◌, ◌++◌, map, Bool, ◌&&◌, ◌||◌, ◌==◌, not,
  if◌then◌else◌, any, all, filter, codes, leb, nat_eq, trim, strip_prefix, and_then, is_text,
}
use hub_kubernetes_agent.Tech.{Technology}
use hub_kubernetes_agent.Tech.Texts.{contains_text, last_segment}
use hub_kubernetes_agent.Tech.Parts.{normalize_version}
use hub_kubernetes_agent.Tech.Detect.{some_text, product_subtype}

pub record ProcessRule : Type 0 where
  pub executable : String
  pub vendor : String
  pub product : String
  pub language : String

abbrev process_rule : String → String → String → String → ProcessRule
process_rule executable vendor product language = record {
  executable = executable;
  vendor = vendor;
  product = product;
  language = language;
}

-- `PROCESS_RULES`
unfoldable pub process_rules : List ProcessRule
process_rules =
    process_rule "java" "eclipse" "java" "Java"
    ∷ process_rule "node" "openjs" "nodejs" "JavaScript"
    ∷ process_rule "python" "python-software-foundation" "python" "Python"
    ∷ process_rule "python3" "python-software-foundation" "python" "Python"
    ∷ process_rule "ruby" "" "ruby" "Ruby"
    ∷ process_rule "php" "" "php" "PHP"
    ∷ process_rule "php-fpm" "" "php-fpm" "PHP"
    ∷ process_rule "nginx" "nginx" "nginx" "C"
    ∷ process_rule "httpd" "apache" "httpd" "C"
    ∷ process_rule "apache2" "apache" "httpd" "C"
    ∷ process_rule "haproxy" "haproxy" "haproxy" "C"
    ∷ process_rule "envoy" "envoy-proxy" "envoy" "C++"
    ∷ process_rule "traefik" "traefik" "traefik" "Go"
    ∷ process_rule "caddy" "caddy" "caddy" "Go"
    ∷ process_rule "redis-server" "redis-labs" "redis" "C"
    ∷ process_rule "postgres" "postgresql" "postgres" "C"
    ∷ process_rule "postmaster" "postgresql" "postgres" "C"
    ∷ process_rule "mysqld" "oracle" "mysql" "C++"
    ∷ process_rule "mysqld_safe" "oracle" "mysql" "C++"
    ∷ process_rule "mariadbd" "mariadb" "mariadb" "C++"
    ∷ process_rule "mongod" "mongodb" "mongodb" "C++"
    ∷ process_rule "rabbitmq-server" "vmware" "rabbitmq" "Erlang"
    ∷ process_rule "oracle" "oracle" "oracle-database" "C"
    ∷ process_rule "dbca" "oracle" "oracle-database" "C"
    ∷ process_rule "sqlplus" "oracle" "oracle-database" "C"
    ∷ []

abbrev is_ascii_digit : ℕ → Bool
is_ascii_digit c = leb b'0' c && leb c b'9'

abbrev is_ascii_alphanumeric : ℕ → Bool
is_ascii_alphanumeric c = is_ascii_digit c || leb b'a' c && leb c b'z' || leb b'A' c && leb c b'Z'

-- `starts_with` of a digit.
abbrev starts_with_digit : List ℕ → Bool
starts_with_digit [] = Bool.false
starts_with_digit (c ∷ cs) = is_ascii_digit c

unfoldable pub is_version_like : String → Bool
unfolding trim
is_version_like value =
    let v = trim value in
    not (v == "")
    && (all (λ c. is_ascii_alphanumeric c || nat_eq c b'.' || nat_eq c b'-' || nat_eq c b'_')
          (codes v)
        && starts_with_digit (codes v))

-- The trimmed text, if it is like a version.
unfoldable pub checked_version : String → Option String
unfolding trim is_version_like
checked_version text =
    let v = trim text in if v == "" then none else if is_version_like v then some v else none

-- The first of two.
abbrev or_else : Option String → Option String → Option String
or_else none later = later
or_else (some v) later = some v

-- What an argument with "=" says.
unfoldable pub version_of_arg : String → Option String
unfolding strip_prefix checked_version
version_of_arg arg =
    or_else (and_then (strip_prefix arg "--version=") checked_version)
      (and_then (strip_prefix arg "-version=") checked_version)

-- The first loop, over the arguments.
unfoldable pub version_in_args : List String → Option String
unfolding version_of_arg
version_in_args [] = none
version_in_args (arg ∷ args) = or_else (version_of_arg arg) (version_in_args args)

-- The second loop, over `args.windows(2)`.
unfoldable pub version_in_pairs : List String → Option String
unfolding checked_version
version_in_pairs [] = none
version_in_pairs (flag ∷ []) = none
version_in_pairs (flag ∷ value ∷ args) =
    let later = version_in_pairs (value ∷ args) in
    if (flag == "--version") || (flag == "-version")
    then or_else (checked_version value) later
    else later

unfoldable pub extract_process_version : List String → Option String
unfolding version_in_args version_in_pairs
extract_process_version args = or_else (version_in_args args) (version_in_pairs args)

unfoldable pub find_process_rule : List ProcessRule → String → Option ProcessRule
find_process_rule [] exe = none
find_process_rule (rule ∷ later) exe =
    let rest = find_process_rule later exe in if exe == rule.executable then some rule else rest

-- The outer loop: the first executable that has a rule.
unfoldable pub first_process_rule : List String → Option ProcessRule
unfolding find_process_rule process_rules
first_process_rule [] = none
first_process_rule (exe ∷ executables) =
    let later = first_process_rule executables in
    elim (find_process_rule process_rules exe) [ some rule ↦ some rule | none ↦ later ]

unfoldable pub detect_from_process : List String → List String → Option Technology
unfolding last_segment first_process_rule extract_process_version normalize_version
detect_from_process command args =
    let executables = filter (λ name. not (name == "")) (map last_segment (command ++ args)) in
    and_then (first_process_rule executables) (λ rule. some (record {
      vendor = some_text rule.vendor;
      product = some rule.product;
      version = and_then (extract_process_version args) (λ v. some (normalize_version v));
      language = some_text rule.language;
      source = "process";
      subtype = product_subtype rule.product;
    }))

abbrev pub spring_boot_markers : List String
spring_boot_markers =
    "spring" ∷ "springboot" ∷ "-dspring.profiles.active" ∷ "spring.profiles.active" ∷ []

unfoldable pub has_spring_marker : (String → String) → List String → Bool
unfolding contains_text
has_spring_marker to_lowercase haystack =
    any (λ arg. any (contains_text (to_lowercase arg)) spring_boot_markers) haystack

unfoldable pub refine_spring_boot :
    (String → String) → Technology → List String → List String → Technology
unfolding last_segment has_spring_marker
refine_spring_boot to_lowercase tech command args =
    if not (is_text tech.product "java" || any (λ entry. last_segment entry == "java") command)
    then tech
    else if has_spring_marker to_lowercase (command ++ args)
    then record tech { subtype = some "spring_boot" }
    else tech
