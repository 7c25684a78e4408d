-- ===== src/ImageSecret/Steps.antt =====
-- The steps of a rotation that succeed: what each of them stored.
use image_registry_operator.Prelude.{
  ◌≡◌, refl, sym, ◌∙◌, ap, false, none, some, arith, Bool-cases, inl, inr, subst,
}
use mathlib.Core.Path.{subst₂}
use image_registry_operator.Go.Text.{Text, text_eq, is_empty}
use image_registry_operator.Go.Map.{Map, lookup, insert, lookup-insert}
use image_registry_operator.Go.Error.{ok, Result-cases}
use image_registry_operator.Kube.Meta.{Secret}
use image_registry_operator.Kube.Api.{Wrote}
use image_registry_operator.RegistriesConf.Docker.{DockerConfig}
use image_registry_operator.V1alpha1.{
  ImageSecret, ImageRegistryAccount, secret_key_username, secret_key_password, secret_key_registry,
  secret_key_ca_cert,
}
use image_registry_operator.ImageSecret.Names.{account_name_for_cr}
use image_registry_operator.ImageSecret.Deps.{Cluster, Settings, Deps}
use image_registry_operator.ImageSecret.Rotate.{
  TargetRegistry, secret_data, renewed_secret, write_secret, save_secret, save_account,
  save_rotation, new_account,
}
use image_registry_operator.ImageSecret.Checks.{data_at}
use image_registry_operator.ImageSecret.Laws.{
  Laws, SameAccount, SameSecret, SameCr, SameSecret-trans, HasOwnKey, account_key, secret_key,
}

-- The data of the secret, key by key.
pub record Holds (registry : TargetRegistry) (user password : Text) (secret : Secret) : Type 0 where
  pub username : data_at secret_key_username secret ≡ user
  pub password_kept : data_at secret_key_password secret ≡ password
  pub hostname : data_at secret_key_registry secret ≡ registry.hostname
  pub ca : data_at secret_key_ca_cert secret ≡ registry.ca

-- A key that is not the docker config's is looked up behind it.
lookup_behind :
    (k j : Text) (v : Text) (m : Map Text)
    → text_eq k j ≡ false
    → lookup j (insert k v m) ≡ lookup j m
lookup_behind k j v m h = rw (lookup-insert, h)

pub secret_data-Holds :
    (cfg : Settings) (json : DockerConfig → Text) (registry : TargetRegistry) (user password : Text)
    (secret : Secret)
    → HasOwnKey cfg
    → secret.contents ≡ some (secret_data cfg json registry user password)
    → Holds registry user password secret
unfolding secret_data
secret_data-Holds cfg json registry user password secret own e = record {
  username = rw (e, lookup_behind _ _ _ _ own.username) (unfold lookup insert text_eq in refl);
  password_kept = rw (e, lookup_behind _ _ _ _ own.password) (unfold lookup insert text_eq in refl);
  hostname = rw (e, lookup_behind _ _ _ _ own.registry) (unfold lookup insert text_eq in refl);
  ca = rw (e, lookup_behind _ _ _ _ own.ca_cert) (unfold lookup insert text_eq in refl);
}

module _ {C A S R : Type 0} (deps : Deps C A S R) (cfg : Settings) (laws : Laws deps)
    (registry : TargetRegistry) where
  write_secret-Wrote :
      (secret stored : Secret) (s s' : S)
      → write_secret deps cfg secret s ≡ (ok stored, s')
      → Wrote deps.secret_api secret_key SameSecret secret stored s s'
  unfolding write_secret
  write_secret-Wrote secret stored s s' e = elim (Bool-cases (is_empty secret.meta.uid)) [
    | inl h ↦ laws.secret_writes.create_wrote secret stored s s' (rw h at e)
    | inr h ↦ laws.secret_writes.update_wrote secret stored s s' (rw h at e)
  ]

  renewed-key :
      (secret : Secret) (cr : ImageSecret) (user password : Text)
      → secret_key (renewed_secret cfg deps.docker_json.json registry cr user password secret)
        ≡ secret_key secret
  unfolding renewed_secret
  renewed-key secret cr user password = refl

  abbrev pub SecretWritten : ImageSecret → Text → Text → Secret → Cluster C A S R → Type 0
  SecretWritten cr user password secret cl =
      (stored : Secret) × (deps.secret_api.get (secret_key secret) cl.secrets ≡ ok stored)
      × SameSecret (renewed_secret cfg deps.docker_json.json registry cr user password secret)
          stored

  pub save_secret_ok :
      (cr cr' : ImageSecret) (user password : Text) (secret : Secret) (cl cl' : Cluster C A S R)
      → save_secret deps cfg registry cr user password secret cl ≡ (none, cr', cl')
      → (cr' ≡ cr) × (cl'.accounts ≡ cl.accounts) × SecretWritten cr user password secret cl'
  unfolding save_secret
  save_secret_ok cr cr' user password secret cl cl' e =
      let renewed = renewed_secret cfg deps.docker_json.json registry cr user password secret in
      elim (Result-cases (deps.set_controller_reference cr renewed)) [
        | inr (x, p) ↦ absurd (ground (arith, p))
        | inl (owned, p) ↦
            let w = write_secret deps cfg owned cl.secrets in
            elim (Result-cases w.0) [
              | inr (x, q) ↦ absurd (ground (arith, p, q))
              | inl (stored, q) ↦
                  let wrote =
                    write_secret-Wrote owned stored cl.secrets w.1 (ap (λ r. (r, w.1)) q) in
                  let kept = laws.owner_set cr renewed owned p in
                  (
                    ground (arith, p, q),
                    ground (arith, p, q),
                    (
                      stored,
                      subst₂ (λ k s. deps.secret_api.get k s ≡ ok stored)
                          (sym kept.key ∙ renewed-key secret cr user password)
                          (ground (arith, p, q)) wrote.stored,
                      SameSecret-trans kept wrote.same,
                    ),
                  )
            ]
      ]

  abbrev pub AccountWritten : ImageSecret → Text → Cluster C A S R → Type 0
  AccountWritten cr hash cl =
      (account : ImageRegistryAccount) × (deps.account_api.get
          (account_key (new_account cfg registry cr hash)) cl.accounts
        ≡ ok account)
      × SameAccount (new_account cfg registry cr hash) account

  new_account-name :
      (cr : ImageSecret) (hash : Text)
      → (new_account cfg registry cr hash).meta.name ≡ account_name_for_cr cr
  unfolding new_account
  new_account-name cr hash = refl

  pub save_account_ok :
      (cr cr' : ImageSecret) (password hash : Text) (secret : Secret) (cl cl' : Cluster C A S R)
      → save_account deps cfg registry cr password hash secret cl ≡ (none, cr', cl')
      → (cr' ≡ cr)
        × AccountWritten cr hash cl'
        × ((user : Text) × (user ≡ account_name_for_cr cr)
            × SecretWritten cr user password secret cl')
  unfolding save_account
  save_account_ok cr cr' password hash secret cl cl' e =
      let w = deps.account_api.create (new_account cfg registry cr hash) cl.accounts in
      elim (Result-cases w.0) [
        | inr (x, p) ↦ absurd (ground (arith, p))
        | inl (account, p) ↦
            let wrote =
              laws.account_writes.create_wrote (new_account cfg registry cr hash) account
                cl.accounts w.1 (ap (λ r. (r, w.1)) p) in
            let (kept, accounts, written) =
              save_secret_ok cr cr' account.meta.name password secret (record cl { accounts = w.1 })
                cl' (rw (p, save_account) at e) in
            (
              kept,
              (account, rw accounts wrote.stored, wrote.same),
              (account.meta.name, sym wrote.same.name ∙ new_account-name cr hash, written),
            )
      ]

  pub save_rotation_ok :
      (cr cr' : ImageSecret) (password hash : Text) (secret : Secret) (cl cl' : Cluster C A S R)
      → save_rotation deps cfg registry cr password hash secret cl ≡ (none, cr', cl')
      → SameCr cr cr'
        × AccountWritten cr' hash cl'
        × ((user : Text) × (user ≡ account_name_for_cr cr')
            × SecretWritten cr' user password secret cl')
  unfolding save_rotation
  save_rotation_ok cr cr' password hash secret cl cl' e =
      let w = deps.cr_api.update_status cr cl.crs in
      elim (Result-cases w.0) [
        | inr (x, p) ↦ absurd (ground (arith, p))
        | inl (saved, p) ↦
            let (kept, account, written) =
              save_account_ok saved cr' password hash secret (record cl { crs = w.1 }) cl'
                (rw (p, save_rotation) at e) in
            (
              subst (SameCr cr) (sym kept)
                  (laws.status_saved cr saved cl.crs w.1 (ap (λ r. (r, w.1)) p)),
              rw kept account,
              rw kept written,
            )
      ]
