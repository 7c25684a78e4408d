-- ===== src/RegistriesConf/Docker.antt =====
-- pkg/registriesconf/dockerconf.go.
use image_registry_operator.Prelude.{Option, none, some, ◌∷◌, ◌++◌, []}
use image_registry_operator.Go.Text.{Text}
use image_registry_operator.Go.Map.{Map, insert}
use image_registry_operator.Go.Base64.{encode}
use image_registry_operator.Go.Error.{Result}

pub record DockerConfigUrlAuth : Type 0 where
  pub auth : Text

-- A nil `Auths` is `none`.
pub record DockerConfig : Type 0 where
  pub auths : Option (Map DockerConfigUrlAuth)

abbrev pub auths_or_empty : DockerConfig → Map DockerConfigUrlAuth
auths_or_empty c = elim c.auths [ none ↦ [] | some m ↦ m ]

abbrev pub basic_auth : Text → Text → DockerConfigUrlAuth
basic_auth user passwd = record { auth = encode (user ++ b':' ∷ passwd) }

unfoldable pub add_auth : DockerConfig → Text → Text → Text → DockerConfig
add_auth c registry user passwd = record c {
  auths = some (insert registry (basic_auth user passwd) (auths_or_empty c));
}

-- `encoding/json` on this type: `ParseDockerConfig` and `JSON`.
pub record DockerJson : Type 0 where
  pub parse_docker_config : Text → Result DockerConfig
  pub json : DockerConfig → Text
