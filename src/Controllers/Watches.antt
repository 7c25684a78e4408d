-- ===== src/Controllers/Watches.antt =====
-- What the controllers of pkg/controller watch: the arguments of the calls of `Watch` in their `Add`
-- functions, in order.
use image_registry_operator.Prelude.{true, false, some, List, [], ◌∷◌}
use image_registry_operator.Go.Text.{Text, text}
use image_registry_operator.Kube.Meta.{NamespacedName}
use image_registry_operator.Kube.Controller.{
  Kind, image_registry, image_registry_account, image_build_env, secret, service, pod, stateful_set,
  persistent_volume_claim, service_account, role, role_binding, EventHandler,
  enqueue_request_for_object, enqueue_request_for_owner, enqueue_requests_from_map_func,
}
use image_registry_operator.Backrefs.Keys.{annotations, labels, map_request}
use image_registry_operator.CaRoot.{map_secret}
use image_registry_operator.ImageRegistry.Service.{annotation_image_registry}
use image_registry_operator.ImageSecret.Config.{Config}

-- The arguments of a call of `Watch`.
abbrev pub Source : Type 0
Source = Kind × EventHandler

-- `EnqueueRequestForOwner` with `IsController`.
abbrev pub controlled_by : Kind → EventHandler
controlled_by owner = enqueue_request_for_owner true owner

abbrev pub ca_root_watches : NamespacedName → List Source
ca_root_watches name = (secret, enqueue_requests_from_map_func (λ m. map_secret name (some m))) ∷ []

abbrev pub image_build_env_watches : List Source
image_build_env_watches =
    (image_build_env, enqueue_request_for_object)
    ∷ (pod, controlled_by image_build_env)
    ∷ (service, controlled_by image_build_env)
    ∷ (secret, enqueue_request_for_owner false image_build_env)
    ∷ []

-- `WatchSecondaryResources`
abbrev pub secondary_resources : Kind → Text → List Source
secondary_resources owner_type account_label =
    (secret, controlled_by owner_type)
    ∷ (image_registry_account, controlled_by owner_type)
    ∷ (image_registry_account, enqueue_requests_from_map_func (map_request labels account_label))
    ∷ []

abbrev pub image_secret_watches : Kind → Config → List Source
image_secret_watches owner_type cfg =
    (owner_type, enqueue_request_for_object) ∷ secondary_resources owner_type cfg.account_label

abbrev pub image_registry_watches : List Source
image_registry_watches =
    (image_registry, enqueue_request_for_object)
    ∷ (stateful_set, controlled_by image_registry)
    ∷ (service, controlled_by image_registry)
    ∷ (secret, controlled_by image_registry)
    ∷ (
      persistent_volume_claim,
      enqueue_requests_from_map_func (map_request annotations annotation_image_registry),
    )
    ∷ (service_account, controlled_by image_registry)
    ∷ (role, controlled_by image_registry)
    ∷ (role_binding, controlled_by image_registry)
    ∷ []

abbrev pub image_registry_account_watches : List Source
image_registry_account_watches = (image_registry_account, enqueue_request_for_object) ∷ []

-- The configurations of the two controllers of image secrets.
abbrev pub pull_config : Config
pull_config = record {
  secret_type = text "kubernetes.io/dockerconfigjson";
  docker_config_key = text ".dockerconfigjson";
  account_label = text "registry.mgoltzsche.github.com/imagepullsecret";
}

abbrev pub push_config : Config
push_config = record {
  secret_type = text "kubernetes.io/dockerconfigjson";
  docker_config_key = text ".dockerconfigjson";
  account_label = text "registry.mgoltzsche.github.com/imagepushsecret";
}
