-- ===== src/ImageSecret/Reconcile.antt =====
-- `Reconcile` with `setSyncStatus` and `getRegistry`. A handler returns when to requeue, the error, and
-- the cluster.
use image_registry_operator.Prelude.{
  Bool, true, false, not, ◌||◌, Option, none, some, [], if◌then◌else◌,
}
use image_registry_operator.Prelude.Int.{int_eq}
use image_registry_operator.Go.Text.{Text, text, is_empty}
use image_registry_operator.Go.Error.{
  Error, not_found, wrap, Result, ok, err, ◌>>=◌, error_of, is_not_found, message,
}
use image_registry_operator.Go.Time.{seconds}
use image_registry_operator.Kube.Meta.{NamespacedName, Condition, Secret}
use image_registry_operator.Merge.{has_finalizer}
use image_registry_operator.ImageRegistry.Names.{registry_hostname}
use image_registry_operator.V1alpha1.{
  ImageSecret, ImageSecretStatus, ImageRegistry, ImageRegistryAccount, condition_ready,
  condition_synced, reason_failed_sync, reason_failed_update, reason_registry_unavailable,
  secret_key_ca_cert,
}
use image_registry_operator.ImageSecret.Names.{account_name_for_cr, secret_name_for_cr}
use image_registry_operator.ImageSecret.Deps.{Cluster, Settings, Deps, Readings}
use image_registry_operator.ImageSecret.Rotate.{
  TargetRegistry, delete_orphan_accounts, rotate_password,
}
use image_registry_operator.ImageSecret.Checks.{
  finalizer, Outcome, done, new_account_object, new_secret_object, fetch, data_at,
  get_registry_key_for_cr, fill_registry_ref, must_rotate, renewal_ttl,
}

module _ {C A S R : Type 0} (deps : Deps C A S R) (cfg : Settings) where
  unfoldable pub set_sync_status :
      ImageSecret → Text → Bool → Text → Text → Cluster C A S R → Option Error × Cluster C A S R
  set_sync_status cr type is_true reason msg cl =
      let condition : Condition = record {
        type = type;
        is_true = is_true;
        reason = reason;
        message = msg;
      } in
      let (conditions, changed) = deps.set_condition condition cr.status.conditions in
      let status : ImageSecretStatus = record cr.status {
        conditions = conditions;
        observed_generation = cr.meta.generation;
      } in
      if changed || not (int_eq cr.status.observed_generation cr.meta.generation)
      then (let (result, crs) = deps.cr_api.update_status (record cr { status = status }) cl.crs in
          (error_of result, record cl { crs = crs }))
      else (none, cl)

  -- The registry's CA is that of the secret that its status names.
  unfoldable pub target_registry : NamespacedName → ImageRegistry → S → Result TargetRegistry
  target_registry key registry secrets = do
    secret ←
        deps.cached_secret
          (record { namespace = key.namespace; name = registry.status.tls_secret_name }) secrets
    ok (record {
      namespace = registry.meta.namespace;
      hostname = registry_hostname registry cfg.dns_zone;
      ca = data_at secret_key_ca_cert secret;
    })

  unfoldable pub get_registry : NamespacedName → Cluster C A S R → Result TargetRegistry
  get_registry key cl = do
    registry ← deps.registry_api.get key cl.registries
    if deps.is_true_for condition_ready registry.status.conditions
        then target_registry key registry cl.secrets
        else err (wrap (text "ImageRegistry is not ready") (not_found (deps.name_string key)))

  -- The accounts are deleted first, then the finalizer is removed.
  unfoldable pub finalize :
      NamespacedName → ImageSecret → Cluster C A S R → Outcome × Cluster C A S R
  finalize request cr cl =
      let (failed, accounts) =
        if is_empty cr.status.registry_namespace
        then (none, cl.accounts)
        else delete_orphan_accounts deps cfg request cr.status.registry_namespace cl.accounts in
      let cl' : Cluster C A S R = record cl { accounts = accounts } in
      elim failed [
        | some e ↦ (done (some e), cl')
        | none ↦
            let released : ImageSecret = record cr {
              meta = deps.remove_finalizer finalizer cr.meta;
            } in
            let (result, crs) = deps.cr_api.update released cl.crs in
            (done (error_of result), record cl' { crs = crs })
      ]

  unfoldable pub protect : ImageSecret → Cluster C A S R → Outcome × Cluster C A S R
  protect cr cl =
      let guarded : ImageSecret = record cr { meta = deps.add_finalizer finalizer cr.meta } in
      let (result, crs) = deps.cr_api.update guarded cl.crs in
      let cl' : Cluster C A S R = record cl { crs = crs } in
      elim result [
        | ok saved ↦ (done none, cl')
        | err e ↦ (
          done (some e),
          (set_sync_status guarded condition_synced false reason_failed_update (message e) cl').1,
        )
      ]

  -- After the rotation, or without one: the ready condition and the next check.
  unfoldable pub finish :
      Readings → ImageRegistryAccount → ImageSecret → Cluster C A S R → Outcome × Cluster C A S R
  finish r account cr cl =
      let (failed, cl') = set_sync_status cr condition_ready true [] [] cl in
      elim failed [
        | some e ↦ (done (some e), cl')
        | none ↦ (record { requeue_after = renewal_ttl cfg r.now account; error = none }, cl')
      ]

  -- What follows on the account and the secret that were found.
  unfoldable pub sync :
      Readings
      → ImageSecret
      → TargetRegistry
      → Bool × ImageRegistryAccount
      → Bool × Secret
      → Cluster C A S R
      → Outcome × Cluster C A S R
  sync r cr registry account secret cl =
      if must_rotate cfg r registry cr account secret
      then (let (failed, cr', cl') = rotate_password deps cfg r cr registry secret.1 cl in
          elim failed [
            | none ↦ finish r account.1 cr' cl'
            | some e ↦
                let (unsaved, cl'') =
                  set_sync_status cr' condition_ready false reason_failed_sync (message e) cl' in
                (done unsaved, cl'')
          ])
      else finish r account.1 cr cl

  unfoldable pub reconcile_registered :
      Readings → ImageSecret → TargetRegistry → Cluster C A S R → Outcome × Cluster C A S R
  reconcile_registered r cr registry cl =
      let account_key : NamespacedName = record {
        namespace = registry.namespace;
        name = account_name_for_cr cr;
      } in
      let secret_key : NamespacedName = record {
        namespace = cr.meta.namespace;
        name = secret_name_for_cr cr;
      } in
      elim (fetch deps.account_api account_key
        (new_account_object account_key.namespace account_key.name) cl.accounts) [
          | err e ↦ (done (some e), cl)
          | ok account ↦
              elim (fetch deps.secret_api secret_key
                (new_secret_object secret_key.namespace secret_key.name) cl.secrets) [
                  | err e ↦ (done (some e), cl)
                  | ok secret ↦ sync r cr registry account secret cl
                ]
        ]

  unfoldable pub reconcile_live :
      Readings → ImageSecret → Cluster C A S R → Outcome × Cluster C A S R
  reconcile_live r cr cl = elim (get_registry (get_registry_key_for_cr cfg cr) cl) [
    | ok registry ↦ reconcile_registered r (fill_registry_ref cr) registry cl
    | err e ↦
        let (failed, cl') =
          set_sync_status (fill_registry_ref cr) condition_ready false reason_registry_unavailable
            (message e) cl in
        (record { requeue_after = seconds 30; error = failed }, cl')
  ]

  unfoldable pub reconcile : Readings → NamespacedName → Cluster C A S R → Outcome × Cluster C A S R
  reconcile r request cl = elim (deps.cr_api.get request cl.crs) [
    | err e ↦ if is_not_found e then (done none, cl) else (done (some e), cl)
    | ok cr ↦ elim cr.meta.deletion_timestamp [
      | some deleted ↦
          if has_finalizer cr.meta finalizer then finalize request cr cl else (done none, cl)
      | none ↦ if has_finalizer cr.meta finalizer then reconcile_live r cr cl else protect cr cl
    ]
  ]
