-- ===== src/Tech/Rules.antt =====
-- tech.rs: the table of images, under the headings of the source.
use hub_kubernetes_agent.Prelude.{String, List, [], ◌∷◌, ◌++◌, Bool, any, contains, ◌||◌}
use hub_kubernetes_agent.Tech.Texts.{starts_with}

pub record Rule : Type 0 where
  pub vendor : String
  pub product : String
  pub language : String
  pub names : List String
  pub prefixes : List String

-- `Rule::matches`
unfoldable pub matches : Rule → String → Bool
unfolding starts_with
matches rule name = contains rule.names name || any (λ p. starts_with name p) rule.prefixes

unfoldable pub web_rules : List Rule
web_rules =
    record {
      vendor = "nginx";
      product = "nginx";
      language = "C";
      names = ("nginx" ∷ "nginx-unprivileged" ∷ []);
      prefixes = [];
    }
    ∷ record {
      vendor = "apache";
      product = "httpd";
      language = "C";
      names = ("httpd" ∷ []);
      prefixes = [];
    }
    ∷ record {
      vendor = "haproxy";
      product = "haproxy";
      language = "C";
      names = ("haproxy" ∷ []);
      prefixes = [];
    }
    ∷ record {
      vendor = "envoy";
      product = "envoy";
      language = "C++";
      names = ("envoy" ∷ []);
      prefixes = [];
    }
    ∷ record {
      vendor = "traefik";
      product = "traefik";
      language = "Go";
      names = ("traefik" ∷ []);
      prefixes = [];
    }
    ∷ record {
      vendor = "caddy";
      product = "caddy";
      language = "Go";
      names = ("caddy" ∷ []);
      prefixes = [];
    }
    ∷ []

unfoldable pub database_rules : List Rule
database_rules =
    record {
      vendor = "postgresql";
      product = "postgres";
      language = "C";
      names = ("postgres" ∷ "postgresql" ∷ []);
      prefixes = ("postgres-" ∷ []);
    }
    ∷ record {
      vendor = "mysql";
      product = "mysql";
      language = "C++";
      names = ("mysql" ∷ []);
      prefixes = [];
    }
    ∷ record {
      vendor = "mariadb";
      product = "mariadb";
      language = "C++";
      names = ("mariadb" ∷ []);
      prefixes = [];
    }
    ∷ record {
      vendor = "mongodb";
      product = "mongodb";
      language = "C++";
      names = ("mongo" ∷ "mongodb" ∷ []);
      prefixes = [];
    }
    ∷ record {
      vendor = "redis";
      product = "redis";
      language = "C";
      names = ("redis" ∷ []);
      prefixes = [];
    }
    ∷ record {
      vendor = "elastic";
      product = "elasticsearch";
      language = "Java";
      names = ("elasticsearch" ∷ []);
      prefixes = [];
    }
    ∷ record {
      vendor = "elastic";
      product = "kibana";
      language = "JavaScript";
      names = ("kibana" ∷ []);
      prefixes = [];
    }
    ∷ record {
      vendor = "influxdata";
      product = "influxdb";
      language = "Go";
      names = ("influxdb" ∷ []);
      prefixes = [];
    }
    ∷ record {
      vendor = "cockroachdb";
      product = "cockroachdb";
      language = "Go";
      names = ("cockroach" ∷ []);
      prefixes = [];
    }
    ∷ []

unfoldable pub messaging_rules : List Rule
messaging_rules =
    record {
      vendor = "rabbitmq";
      product = "rabbitmq";
      language = "Erlang";
      names = ("rabbitmq" ∷ []);
      prefixes = [];
    }
    ∷ record {
      vendor = "apache";
      product = "kafka";
      language = "Java";
      names = ("kafka" ∷ []);
      prefixes = ("cp-kafka" ∷ "confluent" ∷ []);
    }
    ∷ record {
      vendor = "nats";
      product = "nats";
      language = "Go";
      names = ("nats" ∷ []);
      prefixes = [];
    }
    ∷ record {
      vendor = "apache";
      product = "zookeeper";
      language = "Java";
      names = ("zookeeper" ∷ []);
      prefixes = [];
    }
    ∷ record {
      vendor = "memcached";
      product = "memcached";
      language = "C";
      names = ("memcached" ∷ []);
      prefixes = [];
    }
    ∷ record {
      vendor = "keycloak";
      product = "keycloak";
      language = "Java";
      names = ("keycloak" ∷ []);
      prefixes = [];
    }
    ∷ record {
      vendor = "hashicorp";
      product = "vault";
      language = "Go";
      names = ("vault" ∷ []);
      prefixes = [];
    }
    ∷ record {
      vendor = "hashicorp";
      product = "consul";
      language = "Go";
      names = ("consul" ∷ []);
      prefixes = [];
    }
    ∷ []

unfoldable pub runtime_rules : List Rule
runtime_rules =
    record {
      vendor = "oracle";
      product = "java";
      language = "Java";
      names = ("openjdk" ∷ []);
      prefixes = ("eclipse-temurin" ∷ "amazoncorretto" ∷ "ibm-semeru-runtimes" ∷ []);
    }
    ∷ record {
      vendor = "nodejs";
      product = "node";
      language = "JavaScript";
      names = ("node" ∷ []);
      prefixes = [];
    }
    ∷ record {
      vendor = "python";
      product = "python";
      language = "Python";
      names = ("python" ∷ []);
      prefixes = [];
    }
    ∷ record {
      vendor = "golang";
      product = "go";
      language = "Go";
      names = ("golang" ∷ []);
      prefixes = [];
    }
    ∷ record {
      vendor = "rust-lang";
      product = "rust";
      language = "Rust";
      names = ("rust" ∷ []);
      prefixes = [];
    }
    ∷ record {
      vendor = "microsoft";
      product = "dotnet";
      language = "C#";
      names = [];
      prefixes = ("dotnet" ∷ []);
    }
    ∷ record {
      vendor = "ruby";
      product = "ruby";
      language = "Ruby";
      names = ("ruby" ∷ []);
      prefixes = [];
    }
    ∷ record {
      vendor = "php";
      product = "php";
      language = "PHP";
      names = ("php" ∷ []);
      prefixes = [];
    }
    ∷ record {
      vendor = "busybox";
      product = "busybox";
      language = "C";
      names = ("busybox" ∷ []);
      prefixes = [];
    }
    ∷ record {
      vendor = "alpine";
      product = "alpine";
      language = "";
      names = ("alpine" ∷ []);
      prefixes = [];
    }
    ∷ record {
      vendor = "debian";
      product = "debian";
      language = "";
      names = ("debian" ∷ []);
      prefixes = [];
    }
    ∷ record {
      vendor = "ubuntu";
      product = "ubuntu";
      language = "";
      names = ("ubuntu" ∷ []);
      prefixes = [];
    }
    ∷ record {
      vendor = "distroless";
      product = "distroless";
      language = "";
      names = ("distroless" ∷ []);
      prefixes = [];
    }
    ∷ []

unfoldable pub observability_rules : List Rule
observability_rules =
    record {
      vendor = "prometheus";
      product = "prometheus";
      language = "Go";
      names = ("prometheus" ∷ []);
      prefixes = [];
    }
    ∷ record {
      vendor = "grafana";
      product = "grafana";
      language = "Go";
      names = ("grafana" ∷ []);
      prefixes = [];
    }
    ∷ record {
      vendor = "grafana";
      product = "loki";
      language = "Go";
      names = ("loki" ∷ []);
      prefixes = [];
    }
    ∷ record {
      vendor = "grafana";
      product = "promtail";
      language = "Go";
      names = ("promtail" ∷ []);
      prefixes = [];
    }
    ∷ record {
      vendor = "opentelemetry";
      product = "otel-collector";
      language = "Go";
      names = ("otelcol" ∷ "opentelemetry-collector" ∷ []);
      prefixes = [];
    }
    ∷ record {
      vendor = "elastic";
      product = "logstash";
      language = "Java";
      names = ("logstash" ∷ []);
      prefixes = [];
    }
    ∷ record {
      vendor = "fluent";
      product = "fluentd";
      language = "Ruby";
      names = ("fluentd" ∷ []);
      prefixes = [];
    }
    ∷ record {
      vendor = "fluent";
      product = "fluent-bit";
      language = "C";
      names = ("fluent-bit" ∷ []);
      prefixes = [];
    }
    ∷ []

unfoldable pub control_plane_rules : List Rule
control_plane_rules =
    record {
      vendor = "kubernetes";
      product = "kube-apiserver";
      language = "Go";
      names = ("kube-apiserver" ∷ []);
      prefixes = [];
    }
    ∷ record {
      vendor = "kubernetes";
      product = "kube-controller-manager";
      language = "Go";
      names = ("kube-controller-manager" ∷ []);
      prefixes = [];
    }
    ∷ record {
      vendor = "kubernetes";
      product = "kube-scheduler";
      language = "Go";
      names = ("kube-scheduler" ∷ []);
      prefixes = [];
    }
    ∷ record {
      vendor = "kubernetes";
      product = "kube-proxy";
      language = "Go";
      names = ("kube-proxy" ∷ []);
      prefixes = [];
    }
    ∷ record {
      vendor = "kubernetes";
      product = "coredns";
      language = "Go";
      names = ("coredns" ∷ []);
      prefixes = [];
    }
    ∷ record {
      vendor = "kubernetes";
      product = "etcd";
      language = "Go";
      names = ("etcd" ∷ []);
      prefixes = [];
    }
    ∷ record {
      vendor = "openshift";
      product = "ose";
      language = "Go";
      names = [];
      prefixes = ("ose-" ∷ []);
    }
    ∷ []

unfoldable pub sidecar_rules : List Rule
sidecar_rules =
    record {
      vendor = "istio";
      product = "istio-proxy";
      language = "C++";
      names = ("proxyv2" ∷ []);
      prefixes = [];
    }
    ∷ record {
      vendor = "linkerd";
      product = "linkerd-proxy";
      language = "Rust";
      names = ("proxy" ∷ []);
      prefixes = ("linkerd2-proxy" ∷ []);
    }
    ∷ record {
      vendor = "jaeger";
      product = "jaeger-agent";
      language = "Go";
      names = ("jaeger-agent" ∷ []);
      prefixes = [];
    }
    ∷ record {
      vendor = "jaeger";
      product = "jaeger-collector";
      language = "Go";
      names = ("jaeger-collector" ∷ []);
      prefixes = [];
    }
    ∷ record {
      vendor = "jaeger";
      product = "jaeger-query";
      language = "Go";
      names = ("jaeger-query" ∷ []);
      prefixes = [];
    }
    ∷ []

-- `RULES`
unfoldable pub rules : List Rule
unfolding web_rules database_rules messaging_rules runtime_rules observability_rules
    control_plane_rules sidecar_rules
rules =
    web_rules ++ database_rules ++ messaging_rules ++ runtime_rules ++ observability_rules
    ++ control_plane_rules ++ sidecar_rules
