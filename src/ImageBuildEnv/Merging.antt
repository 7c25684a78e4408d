-- ===== src/ImageBuildEnv/Merging.antt =====
-- The two configs of a merged secret name the same credentials.
use image_registry_operator.Prelude.{
  ◌≡◌, refl, sym, ◌∙◌, ap, inl, inr, ◌⊎◌, Bool-cases, none, some, List, [], ◌∷◌, if◌then◌else◌,
  arith,
}
use mathlib.Core.Path.{subst₂}
use image_registry_operator.Go.Text.{Text, text, text_eq, text_eq_refl}
use image_registry_operator.Go.Map.{Map, lookup, insert, lookup-insert}
use image_registry_operator.Go.Error.{ok, Result-cases}
use image_registry_operator.Kube.Meta.{Secret}
use image_registry_operator.RegistriesConf.Docker.{DockerConfigUrlAuth, DockerJson, auths_or_empty}
use image_registry_operator.RegistriesConf.Makisu.{
  MakisuRegistries, MakisuBasicAuth, to_makisu_basic_auth, add_registry, credentials,
  credentials-add_registry,
}
use image_registry_operator.V1alpha1.{secret_key_makisu_yaml}
use image_registry_operator.ImageBuildEnv.{
  docker_config_json_key, merge_secret_data, first_data, docker_config_from_secret, add_auths,
  add_secrets,
}

-- A registry has no credentials in either config, or the same in both.
abbrev pub Agrees : Text → Map DockerConfigUrlAuth → MakisuRegistries → Type 0
Agrees k docker makisu =
    ((lookup k docker ≡ none) × (credentials makisu k (text ".*") ≡ none))
    ⊎ ((v : DockerConfigUrlAuth) × (auth : MakisuBasicAuth) × (lookup k docker ≡ some v)
        × (to_makisu_basic_auth v.auth ≡ ok auth)
        × (credentials makisu k (text ".*") ≡ some (record { basic_auth = auth })))

Agrees-insert :
    (k j : Text) (v : DockerConfigUrlAuth) (auth : MakisuBasicAuth)
    (docker : Map DockerConfigUrlAuth) (makisu : MakisuRegistries)
    → to_makisu_basic_auth v.auth ≡ ok auth
    → Agrees j docker makisu
    → Agrees j (insert k v docker) (add_registry makisu k (text ".*") auth)
Agrees-insert k j v auth docker makisu decoded agrees =
    let l = lookup-insert k j v docker in
    let c = credentials-add_registry makisu k (text ".*") j (text ".*") auth in
    elim (Bool-cases (text_eq k j)) [
      | inl same ↦ inr (v, auth, rw same at l, decoded, rw (same, text_eq_refl (text ".*")) at c)
      | inr other ↦ elim agrees [
        | inl (a, b) ↦ inl (rw other at l ∙ a, rw other at c ∙ b)
        | inr (w, was, a, known, b) ↦ inr (w, was, rw other at l ∙ a, known, rw other at c ∙ b)
      ]
    ]

found_makisu :
    (y : Text) (m : Map Text)
    → lookup secret_key_makisu_yaml (insert secret_key_makisu_yaml y m) ≡ some y
found_makisu y m =
    lookup-insert secret_key_makisu_yaml secret_key_makisu_yaml y m
    ∙ ap (λ b. if b then some y else lookup secret_key_makisu_yaml m)
        (text_eq_refl secret_key_makisu_yaml)

found_docker :
    (y d : Text) (m : Map Text)
    → lookup docker_config_json_key
        (insert secret_key_makisu_yaml y (insert docker_config_json_key d m))
      ≡ some d
unfolding text_eq
found_docker y d m =
    lookup-insert secret_key_makisu_yaml docker_config_json_key y
      (insert docker_config_json_key d m)
    ∙ lookup-insert docker_config_json_key docker_config_json_key d m

module _ (json : DockerJson) where
  add_auths-Agrees :
      (name j : Text) (auths docker docker' : Map DockerConfigUrlAuth)
      (makisu makisu' : MakisuRegistries)
      → add_auths json name auths (docker, makisu) ≡ ok (docker', makisu')
      → Agrees j docker makisu
      → Agrees j docker' makisu'
  unfolding add_auths
  add_auths-Agrees name j [] docker docker' makisu makisu' e agrees =
      let p : docker ≡ docker' = ground (arith, e) in
      let q : makisu ≡ makisu' = ground (arith, e) in subst₂ (λ x y. Agrees j x y) p q agrees
  add_auths-Agrees name j ((k, v) ∷ auths) docker docker' makisu makisu' e agrees =
      elim (Result-cases (to_makisu_basic_auth v.auth)) [
        | inr (x, p) ↦ absurd (ground (arith, p, e))
        | inl (auth, p) ↦
            add_auths-Agrees name j auths (insert k v docker) docker'
              (add_registry makisu k (text ".*") auth) makisu' (ground (arith, p, e))
              (Agrees-insert k j v auth docker makisu p agrees)
      ]

  add_secrets-Agrees :
      (j : Text) (secrets : List Secret) (docker docker' : Map DockerConfigUrlAuth)
      (makisu makisu' : MakisuRegistries)
      → add_secrets json secrets (docker, makisu) ≡ ok (docker', makisu')
      → Agrees j docker makisu
      → Agrees j docker' makisu'
  unfolding add_secrets
  add_secrets-Agrees j [] docker docker' makisu makisu' e agrees =
      let p : docker ≡ docker' = ground (arith, e) in
      let q : makisu ≡ makisu' = ground (arith, e) in subst₂ (λ x y. Agrees j x y) p q agrees
  add_secrets-Agrees j (secret ∷ secrets) docker docker' makisu makisu' e agrees =
      elim (Result-cases (docker_config_from_secret json secret)) [
        | inr (x, p) ↦ absurd (ground (arith, p, e))
        | inl (input, p) ↦
            elim (Result-cases
              (add_auths json secret.meta.name (auths_or_empty input) (docker, makisu))) [
                | inr (x, q) ↦ absurd (ground (arith, p, q, e))
                | inl ((d, m), q) ↦
                    add_secrets-Agrees j secrets d docker' m makisu' (ground (arith, p, q, e)) (
                      add_auths-Agrees secret.meta.name j (auths_or_empty input) docker d makisu m q
                        agrees)
              ]
      ]

  -- If the input secrets can be merged, the data has a docker config and a makisu config in which every
  -- registry has the same credentials, in the second for all images, or none in both.
  pub merge_secret_data-Agrees :
      (yaml : MakisuRegistries → Text) (secrets : List Secret) (contents : Map Text)
      → merge_secret_data json yaml secrets ≡ ok contents
      → (docker : Map DockerConfigUrlAuth) × (makisu : MakisuRegistries) × (lookup
            docker_config_json_key contents
          ≡ some (json.json (record { auths = some docker })))
        × (lookup secret_key_makisu_yaml contents ≡ some (yaml makisu))
        × ((registry : Text) → Agrees registry docker makisu)
  unfolding merge_secret_data lookup
  merge_secret_data-Agrees yaml secrets contents e =
      elim (Result-cases (add_secrets json secrets ([], []))) [
        | inr (x, p) ↦ absurd (ground (arith, p, e))
        | inl ((docker, makisu), p) ↦
            let printed = json.json (record { auths = some docker }) in
            let inner = insert docker_config_json_key printed (first_data json secrets) in
            let same : insert secret_key_makisu_yaml (yaml makisu) inner ≡ contents =
              ground (arith, p, e) in
            (
              docker,
              makisu,
              ap (lookup docker_config_json_key) (sym same)
                  ∙ found_docker (yaml makisu) printed (first_data json secrets),
              ap (lookup secret_key_makisu_yaml) (sym same) ∙ found_makisu (yaml makisu) inner,
              λ registry.
                  add_secrets-Agrees registry secrets [] docker [] makisu p (inl (refl, refl)),
            )
      ]
