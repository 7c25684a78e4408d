-- ===== src/ImageBuildEnv.antt =====
-- pkg/controller/imagebuildenv/imagebuildenv_controller.go: the docker configs of the input secrets,
-- merged into one docker config and one makisu config.
use image_registry_operator.Prelude.{
  Bool, true, false, Option, none, some, List, [], ◌∷◌, ◌++◌, if◌then◌else◌,
}
use image_registry_operator.Go.Text.{Text, text, text_eq, is_empty}
use image_registry_operator.Go.Map.{Map, lookup, insert, or_empty}
use image_registry_operator.Go.Error.{Error, Result, ok, err, failure, wrap, ◌>>=◌}
use image_registry_operator.Kube.Meta.{NamespacedName, Secret}
use image_registry_operator.Kube.Api.{Api}
use image_registry_operator.RegistriesConf.Docker.{
  DockerConfig, DockerConfigUrlAuth, DockerJson, auths_or_empty,
}
use image_registry_operator.RegistriesConf.Makisu.{
  MakisuRegistries, MakisuBasicAuth, to_makisu_basic_auth, add_registry,
}
use image_registry_operator.V1alpha1.{ImageBuildEnv, secret_key_makisu_yaml}
pub mod Merging
pub mod Redis
pub mod Reconcile
pub mod RedisPassword
pub mod References
pub mod Outcomes

-- `corev1.DockerConfigJsonKey` and the types of secrets.
abbrev pub docker_config_json_key : Text
docker_config_json_key = text ".dockerconfigjson"

abbrev pub secret_key_config_json : Text
secret_key_config_json = text "config.json"

abbrev pub type_docker_config_json : Text
type_docker_config_json = text "kubernetes.io/dockerconfigjson"

abbrev pub type_opaque : Text
type_opaque = text "Opaque"

-- The input secrets in the order of the spec; a missing one is an error.
unfoldable pub load_input_secrets :
    {S : Type 0} → Api S Secret → Text → List Text → S → Result (List Secret)
load_input_secrets api namespace [] s = ok []
load_input_secrets api namespace (name ∷ names) s = do
  secret ← api.get (record { namespace = namespace; name = name }) s
  secrets ← load_input_secrets api namespace names s
  ok (secret ∷ secrets)

unfoldable pub load_input_secrets_for_cr :
    {S : Type 0} → Api S Secret → ImageBuildEnv → S → Result (List Secret)
load_input_secrets_for_cr api cr s = load_input_secrets api cr.meta.namespace cr.spec.secrets s

module _ (json : DockerJson) where
  abbrev pub parse_key : Secret → Map Text → Text → Result DockerConfig
  parse_key secret m key =
      let config = or_empty (lookup key m) in
      if is_empty config
      then err (
          failure (
            text "secret "
            ++ secret.meta.name
            ++ text " does not specify key \""
            ++ key
            ++ text "\""))
      else json.parse_docker_config config

  unfoldable pub docker_config_from_secret : Secret → Result DockerConfig
  docker_config_from_secret secret = elim secret.contents [
    | none ↦ err (failure (text "secret " ++ secret.meta.name ++ text " does not specify data"))
    | some m ↦
        if text_eq secret.type type_docker_config_json
        then parse_key secret m docker_config_json_key
        else if text_eq secret.type type_opaque
        then parse_key secret m secret_key_config_json
        else err (
            failure (
              text "secret "
              ++ secret.meta.name
              ++ text " has unsupported type "
              ++ secret.type
              ++ text ", expected "
              ++ type_docker_config_json
              ++ text " or "
              ++ type_opaque))
  ]

  -- The docker and the makisu config so far.
  abbrev pub Merged : Type 0
  Merged = Map DockerConfigUrlAuth × MakisuRegistries

  abbrev pub wrap_result {ℓ} : {A : Type ℓ} → Text → Result A → Result A
  wrap_result s (ok a) = ok a
  wrap_result s (err e) = err (wrap s e)

  -- The loop over the auths of one secret.
  unfoldable pub add_auths : Text → Map DockerConfigUrlAuth → Merged → Result Merged
  add_auths name [] conf = ok conf
  add_auths name ((k, v) ∷ auths) (docker, makisu) = do
    auth ← wrap_result (text "secret " ++ name ++ text " basic auth") (to_makisu_basic_auth v.auth)
    add_auths name auths (insert k v docker, add_registry makisu k (text ".*") auth)

  -- The loop over the secrets.
  unfoldable pub add_secrets : List Secret → Merged → Result Merged
  add_secrets [] conf = ok conf
  add_secrets (secret ∷ secrets) conf = do
    input ← wrap_result (text "secret " ++ secret.meta.name) (docker_config_from_secret secret)
    merged ← add_auths secret.meta.name (auths_or_empty input) conf
    add_secrets secrets merged

  -- The data of the first secret, which the configs are put into.
  abbrev pub first_data : List Secret → Map Text
  first_data [] = []
  first_data (secret ∷ secrets) = elim secret.contents [ none ↦ [] | some m ↦ m ]

  -- `yaml` prints the makisu config.
  unfoldable pub merge_secret_data : (MakisuRegistries → Text) → List Secret → Result (Map Text)
  merge_secret_data yaml secrets = do
    (docker, makisu) ← add_secrets secrets ([], [])
    ok (
        insert secret_key_makisu_yaml (yaml makisu) (
          insert docker_config_json_key (json.json (record { auths = some docker }))
            (first_data secrets)))
