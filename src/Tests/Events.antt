-- ===== src/Tests/Events.antt =====
-- The theorems on the set-up of the controllers and on the events that they see, at a manager in
-- memory.
use image_registry_operator.Prelude.{
  ◌≡◌, ◌≢◌, refl, ap, subst, ◌⊎◌, none, true, inl, inr, List, [], ◌∷◌, ◌++◌, map, Has, arith,
}
use image_registry_operator.Go.Text.{Text, text, text_eq, is_empty}
use image_registry_operator.Go.Error.{ok}
use image_registry_operator.Go.Panic.{done}
use image_registry_operator.Kube.Meta.{
  NamespacedName, ObjectMeta, OwnerReference, Secret, new_meta, key_of,
}
use image_registry_operator.Kube.Controller.{
  Kind, image_registry, image_registry_account, image_pull_secret, image_push_secret,
  image_build_env, secret, EventHandler, enqueue_request_for_object, enqueue_request_for_owner,
  enqueue_requests_from_map_func, Enqueues, IsRequested,
}
use image_registry_operator.Backrefs.Keys.{labels, map_request}
use image_registry_operator.Backrefs.OwnerRefs.{
  Object, add_reference, add_missing, del_reference, check_namespace, check_kind, check_each,
  del_first, refers, has_uid, reference_to,
}
use image_registry_operator.V1alpha1.{ImageRegistry}
use image_registry_operator.ImageSecret.Deps.{Settings}
use image_registry_operator.ImageSecret.Config.{new_settings}
use image_registry_operator.ImageSecret.Rotate.{new_account}
use image_registry_operator.ImageRegistry.Upsert.{SetControllerReference}
use image_registry_operator.Controllers.Watches.{pull_config, push_config}
use image_registry_operator.Controllers.{root_ca, reconcile_image_secret, reconcile_image_build_env}
use image_registry_operator.Controllers.Adding.{Renewed}
use image_registry_operator.Controllers.Order.{no_controller_without_root_ca}
use image_registry_operator.Controllers.Registration.{
  Registered, all_watches, SetUp, add_to_manager-SetUp,
}
use image_registry_operator.Controllers.Children.{Owns}
use image_registry_operator.Controllers.Routes.{
  accounts_request_their_secret, inputs_request_their_build_env,
}
use image_registry_operator.Tests.World.{image_secret, target}
use image_registry_operator.Tests.Certificates.{foreign}
use image_registry_operator.Tests.Cluster.{registry}
use image_registry_operator.Tests.Managers.{setup, registers, registered, all_added}

add_to_manager-SetUp_example :
    (g : Registered) × SetUp setup registers [] (all_watches registered) foreign foreign g
add_to_manager-SetUp_example =
    add_to_manager-SetUp setup registers [] (all_watches registered) foreign foreign all_added

no_controller_without_root_ca_example :
    (all_watches registered ≡ [])
    ⊎ ((name : NamespacedName) × (t : Secret) × (root_ca setup ≡ done name)
        × Renewed setup registers name foreign t)
no_controller_without_root_ca_example =
    no_controller_without_root_ca setup registers [] (all_watches registered) foreign foreign none
      all_added

-- The scheme's types; that of the other kinds does not matter here.
abbrev api_version : Text
api_version = text "registry.mgoltzsche.github.com/v1alpha1"

abbrev pub type_meta : Kind → Text × Text
type_meta image_registry = (api_version, text "ImageRegistry")
type_meta image_build_env = (api_version, text "ImageBuildEnv")
type_meta k = (api_version, [])

-- The owner handler of this manager asks for all owners.
abbrev request_for : ObjectMeta → OwnerReference → NamespacedName
request_for m ref = record { namespace = m.namespace; name = ref.name }

abbrev pub requests : EventHandler → ObjectMeta → List NamespacedName
requests enqueue_request_for_object m = key_of m ∷ []
requests (enqueue_request_for_owner is_controller owner) m = map (request_for m) m.owner_references
requests (enqueue_requests_from_map_func f) m = f m

Has-request :
    (m : ObjectMeta) (ref : OwnerReference) (refs : List OwnerReference)
    → Has ref refs
    → Has (request_for m ref) (map (request_for m) refs)
Has-request m ref [] h = h
Has-request m ref (r ∷ refs) (inl e) = inl (ap (request_for m) e)
Has-request m ref (r ∷ refs) (inr h) = inr (Has-request m ref refs h)

pub enqueues : Enqueues type_meta requests
enqueues = record {
  for_object = λ m. refl;
  for_map = λ f m. refl;
  for_controller = λ owner ref m h same flag. Has-request m ref m.owner_references h;
  for_owner = λ owner ref m h same. Has-request m ref m.owner_references h;
}

abbrev owner_reference : ImageRegistry → OwnerReference
owner_reference r = record {
  api_version = api_version;
  kind = text "ImageRegistry";
  name = r.meta.name;
  uid = r.meta.uid;
  controller = true;
  block_owner_deletion = true;
}

abbrev pub own : SetControllerReference
own r m = ok (record m { owner_references = owner_reference r ∷ [] })

pub owns : Owns type_meta own
owns r m m' e near = record {
  ref = owner_reference r;
  present = subst (λ (x : ObjectMeta). Has (owner_reference r) x.owner_references) there (inl refl);
  same_type = refl;
  is_controller = refl;
  same_name = refl;
  same_namespace = subst (λ (x : ObjectMeta). x.namespace ≡ r.meta.namespace) there near;
}
  where
    there : record m { owner_references = owner_reference r ∷ [] } ≡ m'
    there = ground (arith, e)

pub named : text "registry" ≢ []
named e = cc

pub in_infra : text "infra" ≢ []
in_infra e = cc

web : text "web" ≢ []
web e = cc

in_apps : text "apps" ≢ []
in_apps e = cc

accounts_request_their_secret_example :
    (pull : Settings) × (push : Settings) × (new_settings setup.env pull_config ≡ done pull)
    × (new_settings setup.env push_config ≡ done push)
    × IsRequested requests
        (all_watches registered)
        (reconcile_image_secret image_pull_secret pull)
        image_registry_account
        (new_account pull target image_secret (text "hash")).meta
        (key_of image_secret.meta)
    × IsRequested requests
        (all_watches registered)
        (reconcile_image_secret image_push_secret push)
        image_registry_account
        (new_account push target image_secret (text "hash")).meta
        (key_of image_secret.meta)
    × (map_request labels push_config.account_label
          (new_account pull target image_secret (text "hash")).meta
        ≡ [])
    × (map_request labels pull_config.account_label
          (new_account push target image_secret (text "hash")).meta
        ≡ [])
accounts_request_their_secret_example =
    accounts_request_their_secret setup registers type_meta requests [] (all_watches registered)
      foreign foreign enqueues all_added target image_secret (text "hash") (omega arith) web in_apps

-- A build environment, and an input secret that another object controls.
abbrev build_env : Object
build_env = record {
  meta = record (new_meta (text "apps") (text "env")) { uid = text "u1" };
  api_version = api_version;
  kind = text "ImageBuildEnv";
}

abbrev input : ObjectMeta
input = record (new_meta (text "apps") (text "pull")) {
  owner_references =
      record (owner_reference registry) { kind = text "ImagePullSecret"; uid = text "u2" } ∷ [];
}

abbrev referring : ObjectMeta
referring = record input {
  owner_references = input.owner_references ++ reference_to build_env ∷ [];
}

reference_added : add_reference input build_env ≡ done (referring, true)
unfolding add_reference add_missing del_reference check_namespace check_kind check_each del_first
    refers has_uid text_eq is_empty
reference_added = refl

inputs_request_their_build_env_example :
    IsRequested requests
      (all_watches registered)
      reconcile_image_build_env
      secret
      referring
      (key_of build_env.meta)
inputs_request_their_build_env_example =
    inputs_request_their_build_env setup registers type_meta requests [] (all_watches registered)
      foreign foreign enqueues all_added input referring build_env refl reference_added
