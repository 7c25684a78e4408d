-- ===== src/V1alpha1.antt =====
-- pkg/apis/registry/v1alpha1: the custom resources, with the fields that the controllers use.
use image_registry_operator.Prelude.{Bool, false, Option, none, some, List}
use image_registry_operator.Prelude.Int.{ℤ}
use image_registry_operator.Go.Text.{Text, text}
use image_registry_operator.Go.Map.{Map}
use image_registry_operator.Go.Time.{Time, Duration, after, add_time}
use image_registry_operator.Kube.Meta.{ObjectMeta, Condition}

abbrev pub condition_synced : Text
condition_synced = text "Synced"

abbrev pub condition_ready : Text
condition_ready = text "Ready"

abbrev pub reason_failed_sync : Text
reason_failed_sync = text "FailedSync"

abbrev pub reason_updating : Text
reason_updating = text "Updating"

abbrev pub reason_missing_secret : Text
reason_missing_secret = text "MissingSecret"

abbrev pub reason_invalid_secret : Text
reason_invalid_secret = text "InvalidSecret"

abbrev pub reason_failed_update : Text
reason_failed_update = text "FailedUpdate"

abbrev pub reason_pending : Text
reason_pending = text "Pending"

abbrev pub reason_registry_unavailable : Text
reason_registry_unavailable = text "RegistryUnavailable"

abbrev pub secret_key_makisu_yaml : Text
secret_key_makisu_yaml = text "makisu.yaml"

abbrev pub secret_key_redis : Text
secret_key_redis = text "redis"

abbrev pub secret_key_redis_password : Text
secret_key_redis_password = text "redis_password"

abbrev pub secret_key_ca_cert : Text
secret_key_ca_cert = text "ca.crt"

abbrev pub secret_key_registry : Text
secret_key_registry = text "registry"

abbrev pub secret_key_username : Text
secret_key_username = text "username"

abbrev pub secret_key_password : Text
secret_key_password = text "password"

-- imageregistryaccount_types.go

pub record ImageRegistryAccountSpec : Type 0 where
  pub password : Text
  pub labels : Map (List Text)
  pub ttl : Option Duration

pub record ImageRegistryAccount : Type 0 where
  pub meta : ObjectMeta
  pub spec : ImageRegistryAccountSpec

-- `now` is the reading of the clock.
unfoldable pub expired : Time → ImageRegistryAccount → Bool
expired now a = elim a.spec.ttl [
  | none ↦ false
  | some ttl ↦ after now (add_time a.meta.creation_timestamp ttl)
]

-- imagesecret.go, imagepullsecret_types.go, imagepushsecret_types.go: the two kinds differ in what
-- `GetRegistryAccessMode` returns.

pub data ImageSecretType : Type 0 where
  pull push : ImageSecretType

abbrev pub type_text : ImageSecretType → Text
type_text pull = text "pull"
type_text push = text "push"

pub record ImageRegistryRef : Type 0 where
  pub name : Text
  pub namespace : Text

pub record ImageSecretStatus : Type 0 where
  pub conditions : Map Condition
  pub observed_generation : ℤ
  pub rotation_date : Option Time
  pub rotation : ℤ
  pub registry_namespace : Text

pub record ImageSecret : Type 0 where
  pub meta : ObjectMeta
  pub registry_access_mode : ImageSecretType
  pub registry_ref : Option ImageRegistryRef
  pub status : ImageSecretStatus

-- imageregistry_types.go

pub record CertIssuerRefSpec : Type 0 where
  pub name : Text
  pub kind : Text

pub record CertificateSpec : Type 0 where
  pub issuer_ref : Option CertIssuerRefSpec
  pub secret_name : Option Text

pub record AuthSpec : Type 0 where
  pub config_map_name : Option Text
  pub ca : CertificateSpec

-- `Resources` is a corev1.ResourceRequirements, which the operator only copies.
pub record PersistentVolumeClaimSpec : Type 0 where
  pub storage_class_name : Option Text
  pub access_modes : List Text
  pub resources : Text
  pub delete_claim : Bool

pub record ImageRegistrySpec : Type 0 where
  pub replicas : Option ℤ
  pub persistent_volume_claim : PersistentVolumeClaimSpec
  pub tls : CertificateSpec
  pub auth : AuthSpec

pub record ImageRegistryStatus : Type 0 where
  pub observed_generation : ℤ
  pub conditions : Map Condition
  pub hostname : Text
  pub tls_secret_name : Text

pub record ImageRegistry : Type 0 where
  pub meta : ObjectMeta
  pub spec : ImageRegistrySpec
  pub status : ImageRegistryStatus

-- imagebuildenv_types.go

pub record ImageBuildEnvSpec : Type 0 where
  pub redis : Bool
  pub secrets : List Text

pub record ImageBuildEnvStatus : Type 0 where
  pub conditions : Map Condition
  pub secret_refs : List Text

pub record ImageBuildEnv : Type 0 where
  pub meta : ObjectMeta
  pub spec : ImageBuildEnvSpec
  pub status : ImageBuildEnvStatus
