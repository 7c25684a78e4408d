-- ===== src/RegistriesConf/Makisu.antt =====
-- pkg/registriesconf/makisuconf.go.
use image_registry_operator.Prelude.{◌≡◌, Option, none, some, ◌∷◌, ◌++◌, [], if◌then◌else◌, arith}
use image_registry_operator.Go.Text.{Text, split_two, split_two-append, Lacks, text_eq}
use image_registry_operator.Go.Map.{Map, lookup, insert, lookup-insert, or_empty}
use image_registry_operator.Go.Base64.{decode, decode-encode, IsBytes}
use image_registry_operator.Go.Error.{Result, ok, ◌>>=◌}
use image_registry_operator.RegistriesConf.Docker.{basic_auth}

pub record MakisuBasicAuth : Type 0 where
  pub username : Text
  pub password : Text

-- The `TLS` of the security section is never set.
pub record MakisuRepo : Type 0 where
  pub basic_auth : MakisuBasicAuth

abbrev pub MakisuRepos : Type 0
MakisuRepos = Map MakisuRepo

abbrev pub MakisuRegistries : Type 0
MakisuRegistries = Map MakisuRepos

abbrev auth_of : Text × Option Text → MakisuBasicAuth
auth_of (user, passwd) = record { username = user; password = or_empty passwd }

unfoldable pub to_makisu_basic_auth : Text → Result MakisuBasicAuth
to_makisu_basic_auth auth = do s ← decode auth; ok (auth_of (split_two b':' s))

abbrev repos_or_empty : Option MakisuRepos → MakisuRepos
repos_or_empty none = []
repos_or_empty (some e) = e

unfoldable pub add_registry : MakisuRegistries → Text → Text → MakisuBasicAuth → MakisuRegistries
add_registry r registry image auth =
    insert registry
      (insert image (record { basic_auth = auth }) (repos_or_empty (lookup registry r))) r

-- The credentials that `AddAuth` writes into a docker config are the ones that makisu gets from
-- it, if the user name has no colon. Texts are bytes.
pub to_makisu_basic_auth-basic_auth :
    (user passwd : Text)
    → Lacks b':' user
    → IsBytes (user ++ b':' ∷ passwd)
    → to_makisu_basic_auth (basic_auth user passwd).auth
      ≡ ok (record { username = user; password = passwd })
unfolding to_makisu_basic_auth
to_makisu_basic_auth-basic_auth user passwd plain bytes =
    rw (decode-encode (user ++ b':' ∷ passwd) bytes, split_two-append b':' user passwd plain)

-- What makisu finds for an image pattern of a registry.
abbrev pub credentials : MakisuRegistries → Text → Text → Option MakisuRepo
credentials r registry image = lookup image (repos_or_empty (lookup registry r))

-- After AddRegistry the registry has the credentials for that image, and every other pair of a
-- registry and an image has those that it had.
pub credentials-add_registry :
    (r : MakisuRegistries) (registry image other pattern : Text) (auth : MakisuBasicAuth)
    → credentials (add_registry r registry image auth) other pattern ≡ (
        if text_eq registry other
        then (if text_eq image pattern
            then some (record { basic_auth = auth })
            else credentials r registry pattern)
        else credentials r other pattern)
unfolding add_registry
credentials-add_registry r registry image other pattern auth = rw lookup-insert (
    ground (
      arith,
      lookup-insert image pattern (record { basic_auth = auth })
          (repos_or_empty (lookup registry r)),
    ))
