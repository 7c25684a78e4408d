-- ===== src/Kube/Pod.antt =====
-- The parts of pods and services that the operator sets.
use image_registry_operator.Prelude.{ℕ, Bool, List, []}
use image_registry_operator.Go.Text.{Text}
use image_registry_operator.Go.Map.{Map}
use image_registry_operator.Merge.{Named, ServicePort}

pub data VolumeSource : Type 0 where
  claim_source : Text → Bool → VolumeSource
  secret_source : Text → VolumeSource
  config_map_source : Text → VolumeSource

abbrev pub Volume : Type 0
Volume = Named VolumeSource

pub record VolumeMount : Type 0 where
  pub name : Text
  pub mount_path : Text

pub record EnvVar : Type 0 where
  pub name : Text
  pub value : Text

pub record ContainerPort : Type 0 where
  pub name : Text
  pub container_port : ℕ
  pub protocol : Text

pub data Handler : Type 0 where
  http_get : Text → ℕ → Handler
  tcp_socket : ℕ → Handler

pub record Probe : Type 0 where
  pub handler : Handler
  pub initial_delay_seconds : ℕ
  pub period_seconds : ℕ

-- Quantities by resource, in the notation that `resource.MustParse` reads.
pub record ResourceRequirements : Type 0 where
  pub limits : Map Text
  pub requests : Map Text

-- A container without its name.
pub record ContainerBody : Type 0 where
  pub image : Text
  pub image_pull_policy : Text
  pub args : List Text
  pub ports : List ContainerPort
  pub env : List EnvVar
  pub volume_mounts : List VolumeMount
  pub readiness_probe : Probe
  pub liveness_probe : Probe
  pub resources : ResourceRequirements

abbrev pub Container : Type 0
Container = Named ContainerBody

pub record PodSpec : Type 0 where
  pub service_account_name : Text
  pub restart_policy : Text
  pub volumes : List Volume
  pub containers : List Container

pub record ServiceSpec : Type 0 where
  pub selector : Map Text
  pub type : Text
  pub ports : List ServicePort

abbrev pub new_service : ServiceSpec
new_service = record { selector = []; type = []; ports = [] }
