-- ===== src/ImageSecret/Deps.antt =====
-- What the reconciler of image secrets calls and is not its own: the API, helpers of
-- controller-runtime and operator-sdk, hashing, JSON, the clock and the random generators.
use image_registry_operator.Prelude.{Bool, Option}
use image_registry_operator.Go.Text.{Text}
use image_registry_operator.Go.Map.{Map}
use image_registry_operator.Go.Error.{Error, Result}
use image_registry_operator.Go.Time.{Time, Duration}
use image_registry_operator.Kube.Meta.{NamespacedName, ObjectMeta, Condition, Secret}
use image_registry_operator.Kube.Api.{Api}
use image_registry_operator.RegistriesConf.Docker.{DockerJson}
use image_registry_operator.PasswordGen.{Draws}
use image_registry_operator.V1alpha1.{
  ImageSecret, ImageRegistry, ImageRegistryAccount, ImageRegistryRef,
}

-- The objects of the cluster by kind. A client call on one kind leaves the others alone.
pub record Cluster (C A S R : Type 0) : Type 0 where
  pub crs : C
  pub accounts : A
  pub secrets : S
  pub registries : R

-- `ReconcileImageSecretConfig` and the reconciler's own settings.
pub record Settings : Type 0 where
  pub secret_type : Text
  pub docker_config_key : Text
  pub account_label : Text
  pub default_registry : ImageRegistryRef
  pub rotation_interval : Duration
  pub account_ttl : Duration
  pub dns_zone : Text

-- A label selector: the empty one, which selects everything, or a label with a value.
pub data Selector : Type 0 where
  everything : Selector
  has_label : Text → Text → Selector

pub record Deps (C A S R : Type 0) : Type 0 where
  pub cr_api : Api C ImageSecret
  pub account_api : Api A ImageRegistryAccount
  pub secret_api : Api S Secret
  pub registry_api : Api R ImageRegistry
  -- `cache.Get` of a secret
  pub cached_secret : NamespacedName → S → Result Secret
  -- `labels.SelectorFromSet` of one label and its value
  pub selector_from_set : Text → Text → Selector
  -- `DeleteAllOf` of the accounts that a selector selects in a namespace
  pub delete_all_of : Selector → Text → A → Option Error × A
  -- `NamespacedName.String`
  pub name_string : NamespacedName → Text
  pub add_finalizer : Text → ObjectMeta → ObjectMeta
  pub remove_finalizer : Text → ObjectMeta → ObjectMeta
  pub set_controller_reference : ImageSecret → Secret → Result Secret
  -- `Conditions.SetCondition` returns whether it changed something
  pub set_condition : Condition → Map Condition → Map Condition × Bool
  pub is_true_for : Text → Map Condition → Bool
  pub bcrypt_password : Text → Result Text
  pub docker_json : DockerJson

-- What the clock and the random generators return during one reconciliation: `now` and `later` are
-- the two readings for the renewal test, `rotated` the one for the rotation date.
pub record Readings : Type 0 where
  pub now : Time
  pub later : Time
  pub rotated : Time
  pub rnd : Draws
  pub rand : Draws
