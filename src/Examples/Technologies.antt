-- ===== src/Examples/Technologies.antt =====
-- Images and processes of the repository's tests, and the theorems at them.
use Prim.Native.Char.{code}
use Prim.Native.String
use hub_kubernetes_agent.Prelude.{
  ◌-◌, ◌≡◌, refl, String, none, some, [], ◌∷◌, ◌&&◌, leb, if◌then◌else◌,
}
use hub_kubernetes_agent.Tech.{Technology}
use hub_kubernetes_agent.Tech.Parts.{strip_registry, normalize_version}
use hub_kubernetes_agent.Tech.Detect.{detect}
use hub_kubernetes_agent.Tech.Detect.First.{IsRead, detect-IsRead}
use hub_kubernetes_agent.Tech.Detect.Registry.{detect-registry}
use hub_kubernetes_agent.Tech.Stack.{detect_application_stack_from_image}
use hub_kubernetes_agent.Tech.Process.{detect_from_process, refine_spring_boot}
use hub_kubernetes_agent.Tech.Labels.{detect_from_labels}

-- Lower case, of ASCII.
abbrev ascii_lowercase : String → String
ascii_lowercase String.[] = ""
ascii_lowercase (String.◌∷◌ c s) =
    let rest = ascii_lowercase s in
    String.◌∷◌
      (if leb b'A' (code c) && leb (code c) b'Z'
        then String.char_at "abcdefghijklmnopqrstuvwxyz" (code c - b'A')
        else c)
      rest

abbrev postgres : Technology
postgres = record {
  vendor = some "postgresql";
  product = some "postgres";
  version = some "15.4";
  language = some "C";
  source = "image";
  subtype = some "postgresql";
}

detect-postgres : detect ascii_lowercase "docker.io/library/postgres:15.4" ≡ postgres
unfolding detect
detect-postgres = refl

detect_internal_tool : detect ascii_lowercase "mycompany/Internal-Tool:2.0" ≡ record {
  vendor = none;
  product = some "internal-tool";
  version = some "2.0";
  language = none;
  source = "image";
  subtype = none;
}
unfolding detect
detect_internal_tool = refl

detect_digest : (detect ascii_lowercase "nginx@sha256:abc123").version ≡ none
unfolding detect
detect_digest = refl

normalize_v1_30_2 : normalize_version "v1.30.2-alpine" ≡ "1.30.2"
unfolding normalize_version
normalize_v1_30_2 = refl

detect_from_java :
    detect_from_process ("/usr/bin/java" ∷ []) ("--version" ∷ "21-jre" ∷ [])
    ≡ some (record {
      vendor = some "eclipse";
      product = some "java";
      version = some "21";
      language = some "Java";
      source = "process";
      subtype = none;
    })
unfolding detect_from_process
detect_from_java = refl

refine_java :
    (refine_spring_boot ascii_lowercase
      (detect ascii_lowercase "eclipse-temurin:21-jre")
      []
      ("-Dspring.profiles.active=prod" ∷ [])).subtype
    ≡ some "spring_boot"
unfolding refine_spring_boot detect
refine_java = refl

labels_angular :
    detect_from_labels ascii_lowercase
      (("app.kubernetes.io/component", "Angular") ∷ [])
      (("angular.io/version", " 17 ") ∷ [])
    ≡ some (record {
      vendor = none;
      product = some "angular";
      version = some "17";
      language = none;
      source = "labels";
      subtype = some "angular";
    })
unfolding detect_from_labels
labels_angular = refl

stack_oracle :
    detect_application_stack_from_image ascii_lowercase "ghcr.io/team/oracle/database:19"
    ≡ some (record {
      vendor = some "oracle";
      product = some "oracle-database";
      version = none;
      language = none;
      source = "image";
      subtype = some "oracle_database";
    })
unfolding detect_application_stack_from_image
stack_oracle = refl

detect-IsRead_example :
    IsRead ascii_lowercase "docker.io/library/postgres:15.4"
      (detect ascii_lowercase "docker.io/library/postgres:15.4")
detect-IsRead_example = detect-IsRead ascii_lowercase "docker.io/library/postgres:15.4"

detect-registry_example :
    detect ascii_lowercase "registry.local:5000/redis:7.2" ≡ detect ascii_lowercase "redis:7.2"
unfolding strip_registry
detect-registry_example =
    detect-registry ascii_lowercase "registry.local:5000" "redis:7.2" refl refl refl
