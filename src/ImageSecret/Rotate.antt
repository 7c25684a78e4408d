-- ===== src/ImageSecret/Rotate.antt =====
-- `rotatePassword` and `deleteOrphanAccounts`, step by step. A step returns the error, the CR as the
-- handler has it in memory, and the cluster.
use image_registry_operator.Prelude.{not, ◌&&◌, Option, none, some, [], ◌∷◌, if◌then◌else◌}
use image_registry_operator.Prelude.Int.{pos, ◌+ℤ◌}
use image_registry_operator.Go.Text.{Text, text, text_eq, is_empty, format_int}
use image_registry_operator.Go.Map.{Map, insert}
use image_registry_operator.Go.Error.{Error, Result, ok, err, error_of}
use image_registry_operator.Go.Time.{Time, wrap64}
use image_registry_operator.Kube.Meta.{NamespacedName, Secret, key_of, new_meta}
use image_registry_operator.Backrefs.Keys.{to_map_value}
use image_registry_operator.RegistriesConf.Docker.{DockerConfig, add_auth}
use image_registry_operator.PasswordGen.{generate_password}
use image_registry_operator.V1alpha1.{
  ImageSecret, ImageRegistryAccount, type_text, secret_key_username, secret_key_password,
  secret_key_registry, secret_key_ca_cert,
}
use image_registry_operator.ImageSecret.Names.{account_name_for_cr}
use image_registry_operator.ImageSecret.Deps.{Cluster, Settings, Deps, Readings}

abbrev pub annotation_secret_rotation : Text
annotation_secret_rotation = text "registry.mgoltzsche.github.com/rotation"

pub record TargetRegistry : Type 0 where
  pub namespace : Text
  pub hostname : Text
  pub ca : Text

-- The CR with the rotation counted, before it is saved.
unfoldable pub count_rotation : Time → TargetRegistry → ImageSecret → ImageSecret
count_rotation now registry cr = record cr {
  status = record cr.status {
    rotation = wrap64 (cr.status.rotation +ℤ pos 1);
    rotation_date = some now;
    registry_namespace = registry.namespace;
  };
}

-- The account for the CR's rotation count.
unfoldable pub new_account : Settings → TargetRegistry → ImageSecret → Text → ImageRegistryAccount
new_account cfg registry cr hash = record {
  meta = record (new_meta registry.namespace (account_name_for_cr cr)) {
    labels = (cfg.account_label, to_map_value (key_of cr.meta)) ∷ [];
  };
  spec = record {
    password = hash;
    labels =
        (text "namespace", cr.meta.namespace ∷ [])
        ∷ (text "name", cr.meta.name ∷ [])
        ∷ (text "accessMode", type_text cr.registry_access_mode ∷ [])
        ∷ [];
    ttl = some cfg.account_ttl;
  };
}

-- The data of the secret: user, password, registry, CA and docker config.
unfoldable pub secret_data :
    Settings → (DockerConfig → Text) → TargetRegistry → Text → Text → Map Text
secret_data cfg json registry user password =
    insert cfg.docker_config_key
      (json (add_auth (record { auths = none }) registry.hostname user password))
      (insert secret_key_ca_cert registry.ca (
        insert secret_key_registry registry.hostname
          (insert secret_key_password password (insert secret_key_username user []))))

-- The secret, rewritten for an account.
unfoldable pub renewed_secret :
    Settings → (DockerConfig → Text) → TargetRegistry → ImageSecret → Text → Text → Secret → Secret
renewed_secret cfg json registry cr user password secret = record secret {
  type = cfg.secret_type;
  contents = some (secret_data cfg json registry user password);
  meta = record secret.meta {
    annotations =
        insert annotation_secret_rotation (format_int cr.status.rotation) secret.meta.annotations;
  };
}

module _ {C A S R : Type 0} (deps : Deps C A S R) (cfg : Settings) where
  -- The selector is the label with the name as `NamespacedName.String` prints it.
  unfoldable pub delete_orphan_accounts : NamespacedName → Text → A → Option Error × A
  delete_orphan_accounts name registry_namespace accounts =
      deps.delete_all_of (deps.selector_from_set cfg.account_label (deps.name_string name))
        registry_namespace accounts

  -- The accounts of the CR in another registry's namespace go first; their error is dropped.
  unfoldable pub drop_moved_accounts : TargetRegistry → ImageSecret → A → A
  drop_moved_accounts registry cr accounts =
      let last = cr.status.registry_namespace in
      if not (is_empty last) && not (text_eq last registry.namespace)
      then (delete_orphan_accounts (key_of cr.meta) last accounts).1
      else accounts

  -- A secret with a UID exists and is updated, any other is created.
  unfoldable pub write_secret : Secret → S → Result Secret × S
  write_secret secret secrets =
      if is_empty secret.meta.uid
      then deps.secret_api.create secret secrets
      else deps.secret_api.update secret secrets

  unfoldable pub save_secret :
      TargetRegistry
      → ImageSecret
      → Text
      → Text
      → Secret
      → Cluster C A S R
      → Option Error × ImageSecret × Cluster C A S R
  save_secret registry cr user password secret cl =
      elim (deps.set_controller_reference cr
        (renewed_secret cfg deps.docker_json.json registry cr user password secret)) [
          | err e ↦ (some e, cr, cl)
          | ok owned ↦
              let (result, secrets) = write_secret owned cl.secrets in
              (error_of result, cr, record cl { secrets = secrets })
        ]

  -- An account that exists already is an error: the next attempt has another count and name.
  unfoldable pub save_account :
      TargetRegistry
      → ImageSecret
      → Text
      → Text
      → Secret
      → Cluster C A S R
      → Option Error × ImageSecret × Cluster C A S R
  save_account registry cr password hash secret cl =
      let (result, accounts) =
        deps.account_api.create (new_account cfg registry cr hash) cl.accounts in
      let cl' : Cluster C A S R = record cl { accounts = accounts } in
      elim result [
        | err e ↦ (some e, cr, cl')
        | ok account ↦ save_secret registry cr account.meta.name password secret cl'
      ]

  -- The count is saved before the account and the secret are written.
  unfoldable pub save_rotation :
      TargetRegistry
      → ImageSecret
      → Text
      → Text
      → Secret
      → Cluster C A S R
      → Option Error × ImageSecret × Cluster C A S R
  save_rotation registry cr password hash secret cl =
      let (result, crs) = deps.cr_api.update_status cr cl.crs in
      let cl' : Cluster C A S R = record cl { crs = crs } in
      elim result [
        | err e ↦ (some e, cr, cl')
        | ok saved ↦ save_account registry saved password hash secret cl'
      ]

  unfoldable pub rotate_password :
      Readings
      → ImageSecret
      → TargetRegistry
      → Secret
      → Cluster C A S R
      → Option Error × ImageSecret × Cluster C A S R
  rotate_password r cr registry secret cl =
      let password = generate_password r.rnd r.rand in
      elim (deps.bcrypt_password password) [
        | err e ↦ (some e, cr, cl)
        | ok hash ↦
            save_rotation registry (count_rotation r.rotated registry cr) password hash secret
              (record cl { accounts = drop_moved_accounts registry cr cl.accounts })
      ]
