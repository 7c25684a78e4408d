-- ===== src/ImageSecret/Consistency.antt =====
-- After a rotation the account, the secret and the CR's status fit one another.
use image_registry_operator.Prelude.{◌≡◌, refl, sym, ap, none, some, arith, inl, inr, subst}
use image_registry_operator.Prelude.Int.{pos, ◌+ℤ◌}
use image_registry_operator.Go.Text.{Text, text_eq_refl, format_int}
use image_registry_operator.Go.Map.{lookup, lookup-insert}
use image_registry_operator.Go.Error.{ok, Result-cases}
use image_registry_operator.Go.Time.{Time, wrap64}
use image_registry_operator.Kube.Meta.{NamespacedName, Secret, key_of}
use image_registry_operator.RegistriesConf.Docker.{DockerConfig}
use image_registry_operator.PasswordGen.{generate_password}
use image_registry_operator.V1alpha1.{ImageSecret, ImageRegistryAccount}
use image_registry_operator.ImageSecret.Names.{account_name_for_cr}
use image_registry_operator.ImageSecret.Deps.{Cluster, Settings, Deps, Readings}
use image_registry_operator.ImageSecret.Rotate.{
  TargetRegistry, annotation_secret_rotation, renewed_secret, rotate_password, count_rotation,
  new_account,
}
use image_registry_operator.ImageSecret.Steps.{Holds, secret_data-Holds, save_rotation_ok}
use image_registry_operator.ImageSecret.Laws.{
  Laws, SameAccount, SameSecret, SameCr, HasOwnKey, account_key, secret_key,
}

-- `count_rotation` keeps the identity, and the annotation of the renewed secret is the count.
pub counted_lem :
    (now : Time) (registry : TargetRegistry) (cr cr' : ImageSecret)
    → SameCr (count_rotation now registry cr) cr'
    → (cr'.status.rotation ≡ wrap64 (cr.status.rotation +ℤ pos 1))
      × (cr'.registry_access_mode ≡ cr.registry_access_mode)
      × (key_of cr'.meta ≡ key_of cr.meta)
unfolding count_rotation
counted_lem now registry cr cr' same = (
  ap (λ st. st.rotation) (sym same.status),
  sym same.mode,
  λ i. record { namespace = sym same.namespace i; name = sym same.name i },
)

annotation_lem :
    (cfg : Settings) (json : DockerConfig → Text) (registry : TargetRegistry) (cr : ImageSecret)
    (user password : Text) (secret stored : Secret)
    → SameSecret (renewed_secret cfg json registry cr user password secret) stored
    → lookup annotation_secret_rotation stored.meta.annotations
      ≡ some (format_int cr.status.rotation)
unfolding renewed_secret
annotation_lem cfg json registry cr user password secret stored same =
    rw (← same.annotations, lookup-insert, text_eq_refl annotation_secret_rotation)

contents_lem :
    (cfg : Settings) (json : DockerConfig → Text) (registry : TargetRegistry) (cr : ImageSecret)
    (user password : Text) (secret stored : Secret)
    → HasOwnKey cfg
    → SameSecret (renewed_secret cfg json registry cr user password secret) stored
    → Holds registry user password stored
unfolding renewed_secret
contents_lem cfg json registry cr user password secret stored own same =
    secret_data-Holds cfg json registry user password stored own (sym same.contents)

pub account_lem :
    (cfg : Settings) (registry : TargetRegistry) (cr : ImageSecret) (hash : Text)
    (account : ImageRegistryAccount)
    → SameAccount (new_account cfg registry cr hash) account
    → (hash ≡ account.spec.password)
      × (account_key (new_account cfg registry cr hash)
          ≡ record { namespace = registry.namespace; name = account_name_for_cr cr })
unfolding new_account
account_lem cfg registry cr hash account same = (ap (λ sp. sp.password) same.spec, refl)

-- What a rotation leaves behind: an account under the name of the new count, with the hash of the
-- password, and a secret that holds the same name and password, the registry's host and CA, and the
-- new count.
pub record Rotated {C A S R : Type 0} (deps : Deps C A S R) (registry : TargetRegistry)
    (password : Text) (key : NamespacedName) (cr cr' : ImageSecret) (cl : Cluster C A S R)
    : Type 0 where
  pub counted : cr'.status.rotation ≡ wrap64 (cr.status.rotation +ℤ pos 1)
  pub same_mode : cr'.registry_access_mode ≡ cr.registry_access_mode
  pub same_key : key_of cr'.meta ≡ key_of cr.meta
  pub account : ImageRegistryAccount
  pub account_stored :
      deps.account_api.get
        (record { namespace = registry.namespace; name = account_name_for_cr cr' })
        cl.accounts
      ≡ ok account
  pub hashed : deps.bcrypt_password password ≡ ok account.spec.password
  pub secret : Secret
  pub secret_stored : deps.secret_api.get key cl.secrets ≡ ok secret
  pub holds : Holds registry (account_name_for_cr cr') password secret
  pub annotated :
      lookup annotation_secret_rotation secret.meta.annotations
      ≡ some (format_int cr'.status.rotation)

module _ {C A S R : Type 0} (deps : Deps C A S R) (cfg : Settings) (laws : Laws deps)
    (own : HasOwnKey cfg) where
  -- A rotation that reports no error has counted the CR's rotations up, and leaves an account
  -- under the name of the new count with the hash of the generated password, and in the secret's
  -- place a secret with that name, the password, the registry's host and CA, and the new count.
  -- The docker config has a key of its own in the secret, and successful writes store what they
  -- were given.
  pub rotate_password-Rotated :
      (r : Readings) (registry : TargetRegistry) (cr cr' : ImageSecret) (secret : Secret)
      (cl cl' : Cluster C A S R)
      → rotate_password deps cfg r cr registry secret cl ≡ (none, cr', cl')
      → Rotated deps registry (generate_password r.rnd r.rand) (secret_key secret) cr cr' cl'
  unfolding rotate_password
  rotate_password-Rotated r registry cr cr' secret cl cl' e =
      let password = generate_password r.rnd r.rand in
      elim (Result-cases (deps.bcrypt_password password)) [
        | inr (x, p) ↦ absurd (ground (arith, p))
        | inl (hash, p) ↦
            let (same, (account, found, spec), (user, named, (stored, kept, content))) =
              save_rotation_ok deps cfg laws registry (count_rotation r.rotated registry cr) cr'
                password hash secret _ cl' (rw (p, rotate_password) at e) in
            let (counted, mode, key) = counted_lem r.rotated registry cr cr' same in
            let (hashed, place) = account_lem cfg registry cr' hash account spec in
            record {
              counted = counted;
              same_mode = mode;
              same_key = key;
              account = account;
              account_stored = rw place at found;
              hashed = subst (λ h. deps.bcrypt_password password ≡ ok h) hashed p;
              secret = stored;
              secret_stored = kept;
              holds =
                  subst (λ u. Holds registry u password stored) named
                    (contents_lem cfg deps.docker_json.json registry cr' user password secret stored
                      own content);
              annotated =
                  annotation_lem cfg deps.docker_json.json registry cr' user password secret stored
                    content;
            }
      ]
