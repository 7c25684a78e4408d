-- ===== src/Tests/Texts.antt =====
-- pkg/merge, pkg/passwordgen, pkg/backrefs and pkg/registriesconf on small inputs.
use image_registry_operator.Prelude.{ℕ, ◌≡◌, ◌≢◌, ◌↔◌, ◌≤◌, ◌+◌, [], ◌∷◌, arith, List, ◌==◌}
use image_registry_operator.Go.Text.{Text, text, Lacks}
use image_registry_operator.Go.Error.{ok}
use image_registry_operator.Kube.Meta.{NamespacedName}
use image_registry_operator.Merge.{Named}
use image_registry_operator.PasswordGen.{fill, generate_password}
use image_registry_operator.PasswordGen.Content.{tally, global_generator_decides}
use image_registry_operator.Backrefs.Keys.{to_map_value, parse_value, separator, parse_value_iff}
use image_registry_operator.RegistriesConf.Docker.{basic_auth}
use image_registry_operator.RegistriesConf.Makisu.{
  to_makisu_basic_auth, to_makisu_basic_auth-basic_auth,
}

abbrev volume : Text → ℕ → Named ℕ
volume name n = record { name = name; body = n }

abbrev volumes : List (Named ℕ)
volumes = volume (text "auth") 1 ∷ volume (text "tls") 2 ∷ []

abbrev draws : ℕ → ℕ
draws i = i

global_generator_decides_example :
    (tally (λ c. c == b'A') (fill draws 0 14)
      ≤ tally (λ c. c == b'A') (generate_password draws draws))
    × (tally (λ c. c == b'A') (generate_password draws draws)
        ≤ tally (λ c. c == b'A') (fill draws 0 14) + 2)
global_generator_decides_example = global_generator_decides (λ c. c == b'A') draws draws

abbrev resource : NamespacedName
resource = record { namespace = text "apps"; name = text "web" }

abbrev none_left : List NamespacedName
none_left = []

parse_value_iff_example : (parse_value (to_map_value resource) ≡ resource ∷ none_left) ↔ (
    (to_map_value resource ≡ to_map_value resource)
    × (none_left ≡ [])
    × Lacks separator (text "web")
    × (text "web" ≢ [])
    × (text "apps" ≢ []))
parse_value_iff_example = parse_value_iff (to_map_value resource) resource none_left

to_makisu_basic_auth-basic_auth_example :
    to_makisu_basic_auth (basic_auth (text "user") (text "pass:word")).auth
    ≡ ok (record { username = text "user"; password = text "pass:word" })
to_makisu_basic_auth-basic_auth_example =
    to_makisu_basic_auth-basic_auth (text "user") (text "pass:word") (omega arith) (omega arith)
