-- ===== src/ImageRegistry/Pod.antt =====
-- pkg/controller/imageregistry/imageregistry_reconcile_svc.go, the pod of `updateStatefulSetForCR`: the
-- registry, the authentication server and nginx in front of both.
use image_registry_operator.Prelude.{ℕ, false, none, some, List, [], ◌∷◌, ◌++◌}
use image_registry_operator.Go.Text.{Text, text, format_nat}
use image_registry_operator.Go.Map.{Map}
use image_registry_operator.Kube.Pod.{
  Volume, VolumeMount, EnvVar, ContainerPort, Probe, ResourceRequirements, Container, PodSpec,
  claim_source, secret_source, config_map_source, http_get,
}
use image_registry_operator.V1alpha1.{ImageRegistry}
use image_registry_operator.ImageRegistry.Names.{
  registry_hostname, pvc_name_for_cr, tls_secret_name_for_cr, auth_ca_secret_name_for_cr,
  service_account_name_for_cr,
}
use image_registry_operator.ImageRegistry.Upsert.{ReconcileImageRegistry}

abbrev pub internal_port_registry : ℕ
internal_port_registry = 5000

abbrev pub internal_port_auth : ℕ
internal_port_auth = 5001

abbrev pub internal_port_nginx : ℕ
internal_port_nginx = 8443

abbrev pub protocol_tcp : Text
protocol_tcp = text "TCP"

-- `corev1.PullIfNotPresent` and `corev1.RestartPolicyAlways`.
abbrev pub pull_if_not_present : Text
pull_if_not_present = text "IfNotPresent"

abbrev restart_policy_always : Text
restart_policy_always = text "Always"

abbrev pub volume_images : Text
volume_images = text "images"

abbrev pub volume_tls : Text
volume_tls = text "tls"

abbrev pub volume_token_ca : Text
volume_token_ca = text "registry-auth-token-ca"

abbrev pub auth_config_map_vol : Text
auth_config_map_vol = text "auth-config"

abbrev pub http_probe : ℕ → Text → Probe
http_probe port path = record {
  handler = http_get path port;
  initial_delay_seconds = 3;
  period_seconds = 3;
}

abbrev pub tcp_port : Text → ℕ → ContainerPort
tcp_port name port = record { name = name; container_port = port; protocol = protocol_tcp }

abbrev pub env_var : Text → Text → EnvVar
env_var name value = record { name = name; value = value }

abbrev pub mount : Text → Text → VolumeMount
mount name path = record { name = name; mount_path = path }

abbrev cpu_memory : Text → Text → Map Text
cpu_memory cpu memory = (text "cpu", cpu) ∷ (text "memory", memory) ∷ []

abbrev external_url : Text → Text
external_url host = text "https://" ++ host

abbrev auth_issuer_name : Text → Text
auth_issuer_name host = text "Docker Registry Auth " ++ host

abbrev local_address : ℕ → Text
local_address port = b':' ∷ format_nat port

-- The config map of the authentication server, if the CR names one.
abbrev config_volumes : ImageRegistry → List Volume
config_volumes cr = elim cr.spec.auth.config_map_name [
  | none ↦ []
  | some name ↦ record { name = auth_config_map_vol; body = config_map_source name } ∷ []
]

abbrev config_mounts : ImageRegistry → List VolumeMount
config_mounts cr = elim cr.spec.auth.config_map_name [
  | none ↦ []
  | some name ↦ mount auth_config_map_vol (text "/config") ∷ []
]

unfoldable pub volumes_for_cr : ImageRegistry → List Volume
volumes_for_cr cr =
    record { name = volume_images; body = claim_source (pvc_name_for_cr cr) false }
    ∷ record { name = volume_tls; body = secret_source (tls_secret_name_for_cr cr) }
    ∷ record { name = volume_token_ca; body = secret_source (auth_ca_secret_name_for_cr cr) }
    ∷ config_volumes cr

abbrev auth_volume_mounts : ImageRegistry → List VolumeMount
auth_volume_mounts cr = mount volume_token_ca (text "/config/auth-cert") ∷ config_mounts cr

abbrev pub registry_env : Text → List EnvVar
registry_env host =
    env_var (text "REGISTRY_HTTP_ADDR") (local_address internal_port_registry)
    ∷ env_var (text "REGISTRY_HTTP_HOST") (external_url host)
    ∷ env_var (text "REGISTRY_HTTP_RELATIVEURLS") (text "true")
    ∷ env_var (text "REGISTRY_STORAGE_DELETE_ENABLED") (text "true")
    ∷ env_var (text "REGISTRY_AUTH") (text "token")
    ∷ env_var (text "REGISTRY_AUTH_TOKEN_REALM") (external_url host ++ text "/auth/token")
    ∷ env_var (text "REGISTRY_AUTH_TOKEN_AUTOREDIRECT") (text "true")
    ∷ env_var (text "REGISTRY_AUTH_TOKEN_ISSUER") (auth_issuer_name host)
    ∷ env_var (text "REGISTRY_AUTH_TOKEN_SERVICE") (text "Docker Registry " ++ host)
    ∷ env_var (text "REGISTRY_AUTH_TOKEN_ROOTCERTBUNDLE") (text "/root/auth-cert/ca.crt")
    ∷ []

abbrev pub registry_container : ReconcileImageRegistry → ImageRegistry → Container
registry_container r cr = record {
  name = text "registry";
  body = record {
    image = r.image_registry;
    image_pull_policy = pull_if_not_present;
    args = [];
    ports = tcp_port (text "docker") internal_port_registry ∷ [];
    env = registry_env (registry_hostname cr r.dns_zone);
    volume_mounts =
        mount volume_images (text "/var/lib/registry")
        ∷ mount volume_token_ca (text "/root/auth-cert")
        ∷ [];
    readiness_probe = http_probe internal_port_registry (text "/");
    liveness_probe = http_probe internal_port_registry (text "/");
    resources = record {
      limits = cpu_memory (text "100m") (text "128Mi");
      requests = cpu_memory (text "100m") (text "128Mi");
    };
  };
}

abbrev proxy_resources : ResourceRequirements
proxy_resources = record {
  limits = cpu_memory (text "200m") (text "128Mi");
  requests = cpu_memory (text "100m") (text "64Mi");
}

abbrev pub auth_container : ReconcileImageRegistry → ImageRegistry → Container
auth_container r cr = record {
  name = text "auth";
  body = record {
    image = r.image_auth;
    image_pull_policy = pull_if_not_present;
    args = [];
    ports = tcp_port (text "auth") internal_port_auth ∷ [];
    env =
        env_var (text "NAMESPACE") cr.meta.namespace
        ∷ env_var (text "AUTH_SERVER_ADDR") (local_address internal_port_auth)
        ∷ env_var (text "AUTH_TOKEN_ISSUER") (auth_issuer_name (registry_hostname cr r.dns_zone))
        ∷ [];
    volume_mounts = auth_volume_mounts cr;
    readiness_probe = http_probe internal_port_auth (text "/");
    liveness_probe = http_probe internal_port_auth (text "/");
    resources = proxy_resources;
  };
}

abbrev pub nginx_container : ReconcileImageRegistry → Container
nginx_container r = record {
  name = text "nginx";
  body = record {
    image = r.image_nginx;
    image_pull_policy = pull_if_not_present;
    args = [];
    ports = tcp_port (text "https") internal_port_nginx ∷ tcp_port (text "http") 8080 ∷ [];
    env = [];
    volume_mounts = mount volume_tls (text "/etc/nginx/tls") ∷ [];
    readiness_probe = http_probe 8080 (text "/health");
    liveness_probe = http_probe 8080 (text "/health");
    resources = proxy_resources;
  };
}

unfoldable pub containers_for_cr : ReconcileImageRegistry → ImageRegistry → List Container
containers_for_cr r cr = registry_container r cr ∷ auth_container r cr ∷ nginx_container r ∷ []

-- The parts of the pod that are set.
abbrev pub update_pod : ReconcileImageRegistry → ImageRegistry → PodSpec → PodSpec
update_pod r cr pod = record pod {
  service_account_name = service_account_name_for_cr cr;
  restart_policy = restart_policy_always;
  volumes = volumes_for_cr cr;
  containers = containers_for_cr r cr;
}
