-- ===== src/Tests/Merged.antt =====
-- The docker config of one secret, merged into a build environment.
use image_registry_operator.Prelude.{◌≡◌, refl, some, [], ◌∷◌, arith}
use image_registry_operator.Go.Text.{Text, text, text_eq, is_empty}
use image_registry_operator.Go.Map.{Map, lookup, insert}
use image_registry_operator.Go.Error.{ok}
use image_registry_operator.Kube.Meta.{new_meta, Secret}
use image_registry_operator.RegistriesConf.Docker.{DockerConfigUrlAuth, DockerJson, basic_auth}
use image_registry_operator.RegistriesConf.Makisu.{
  MakisuRegistries, to_makisu_basic_auth-basic_auth,
}
use image_registry_operator.V1alpha1.{secret_key_makisu_yaml}
use image_registry_operator.ImageBuildEnv.{
  docker_config_json_key, type_docker_config_json, merge_secret_data, add_secrets, add_auths,
  docker_config_from_secret,
}
use image_registry_operator.ImageBuildEnv.Merging.{Agrees, merge_secret_data-Agrees}

abbrev auths : Map DockerConfigUrlAuth
auths = (text "registry.local", basic_auth (text "user") (text "pass")) ∷ []

-- A parser that knows one config.
abbrev json : DockerJson
json = record {
  parse_docker_config = λ s. ok (record { auths = some auths });
  json = λ c. text "{}";
}

abbrev yaml : MakisuRegistries → Text
yaml r = text "registries"

abbrev input : Secret
input = record {
  meta = new_meta (text "apps") (text "pull");
  type = type_docker_config_json;
  contents = some ((docker_config_json_key, text "{..}") ∷ []);
}

abbrev contents : Map Text
contents = (docker_config_json_key, text "{}") ∷ (secret_key_makisu_yaml, text "registries") ∷ []

merged : merge_secret_data json yaml (input ∷ []) ≡ ok contents
unfolding merge_secret_data add_secrets add_auths docker_config_from_secret lookup insert text_eq
    is_empty
merged =
    rw (to_makisu_basic_auth-basic_auth (text "user") (text "pass") (omega arith) (omega arith))
      refl

merge_secret_data-Agrees_example :
    (docker : Map DockerConfigUrlAuth) × (makisu : MakisuRegistries) × (lookup
        docker_config_json_key contents
      ≡ some (text "{}"))
    × (lookup secret_key_makisu_yaml contents ≡ some (text "registries"))
    × ((registry : Text) → Agrees registry docker makisu)
merge_secret_data-Agrees_example = merge_secret_data-Agrees json yaml (input ∷ []) contents merged
