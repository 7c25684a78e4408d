-- ===== src/Tests/Secrets.antt =====
-- pkg/controller/imagesecret at a CR whose fourth rotation is due.
use image_registry_operator.Prelude.{◌≡◌, ◌⊎◌, refl, true, false, none, some, [], ◌∷◌, arith}
use image_registry_operator.Prelude.Int.{pos, ◌+ℤ◌, ◌-ℤ◌}
use image_registry_operator.Go.Text.{text, text_eq, text_eq_refl, is_empty}
use image_registry_operator.Go.Error.{Error, ok, err, is_not_found}
use image_registry_operator.Go.Time.{wrap64, sub_time, seconds}
use image_registry_operator.Kube.Meta.{NamespacedName, key_of}
use image_registry_operator.Kube.Memory.{find, put, memory}
use image_registry_operator.Merge.{has_finalizer}
use image_registry_operator.PasswordGen.{generate_password}
use image_registry_operator.V1alpha1.{ImageSecret, ImageRegistryAccount, pull}
use image_registry_operator.ImageSecret.Names.{
  account_name-injective, secret_name_for_cr, account_name_for_cr,
}
use image_registry_operator.ImageSecret.Rotate.{
  rotate_password, new_account, save_rotation, count_rotation, save_account, drop_moved_accounts,
  save_secret, write_secret, renewed_secret, delete_orphan_accounts,
}
use image_registry_operator.ImageSecret.Checks.{finalizer, needs_renewal}
use image_registry_operator.ImageSecret.Reconcile.{
  reconcile, reconcile_registered, finish, finalize,
}
use image_registry_operator.ImageSecret.Laws.{secret_key, account_key}
use image_registry_operator.ImageSecret.Consistency.{Rotated, rotate_password-Rotated}
use image_registry_operator.ImageSecret.Stability.{reconcile_after_rotation}
use image_registry_operator.ImageSecret.Order.{reconcile_guarded, secret_after_account, Stored}
use image_registry_operator.ImageSecret.Orphans.{finalizer_deletes_all_accounts}
use image_registry_operator.Tests.World.{
  World, settings, deps, laws, own_key, image_secret, target, empty_secret, cluster, readings,
  account, deletion_laws,
}

-- What the rotation returns, and leaves in the cluster.
abbrev rotated_cr : ImageSecret
rotated_cr = (rotate_password deps settings readings image_secret target empty_secret cluster).1

abbrev rotated_cluster : World
rotated_cluster =
    (rotate_password deps settings readings image_secret target empty_secret cluster).2

rotation_succeeds :
    rotate_password deps settings readings image_secret target empty_secret cluster
    ≡ (none, rotated_cr, rotated_cluster)
unfolding rotate_password find put text_eq save_rotation count_rotation save_account
    drop_moved_accounts is_empty save_secret write_secret renewed_secret
rotation_succeeds = refl

rotate_password-Rotated_example :
    Rotated deps target
      (generate_password readings.rnd readings.rand)
      (secret_key empty_secret)
      image_secret
      rotated_cr
      rotated_cluster
rotate_password-Rotated_example =
    rotate_password-Rotated deps settings laws own_key readings target image_secret rotated_cr
      empty_secret cluster rotated_cluster rotation_succeeds

-- The account that the rotation stored.
abbrev rotated_account : ImageRegistryAccount
rotated_account =
    new_account settings target rotated_cr (b'$' ∷ generate_password readings.rnd readings.rand)

account_found :
    deps.account_api.get
      (record { namespace = target.namespace; name = account_name_for_cr rotated_cr })
      rotated_cluster.accounts
    ≡ ok rotated_account
unfolding rotate_password find put text_eq save_rotation count_rotation save_account
    drop_moved_accounts is_empty save_secret write_secret renewed_secret new_account
account_found = rw text_eq_refl refl

not_due : needs_renewal settings readings.later rotated_account ≡ false
unfolding needs_renewal sub_time ◌-ℤ◌ new_account
not_due = refl

secret_named :
    secret_key empty_secret
    ≡ record { namespace = image_secret.meta.namespace; name = secret_name_for_cr image_secret }
unfolding secret_name_for_cr
secret_named = refl

reconcile_after_rotation_example :
    reconcile_registered deps settings readings rotated_cr target rotated_cluster
    ≡ finish deps settings readings rotated_account rotated_cr rotated_cluster
reconcile_after_rotation_example =
    reconcile_after_rotation deps settings laws own_key readings readings target image_secret
      rotated_cr empty_secret cluster rotated_cluster rotated_account secret_named rotation_succeeds
      account_found not_due

abbrev request : NamespacedName
request = key_of image_secret.meta

reconcile_guarded_example :
    (((reconcile deps settings readings request cluster).1.accounts ≡ cluster.accounts)
      × ((reconcile deps settings readings request cluster).1.secrets ≡ cluster.secrets))
    ⊎ ((cr : ImageSecret) × (deps.cr_api.get request cluster.crs ≡ ok cr)
        × (has_finalizer cr.meta finalizer ≡ true)
        × ((cr.meta.deletion_timestamp ≡ none)
            ⊎ ((reconcile deps settings readings request cluster).1.secrets ≡ cluster.secrets)))
reconcile_guarded_example = reconcile_guarded deps settings readings request cluster

secret_after_account_example :
    ((rotate_password deps settings readings image_secret target empty_secret cluster).2.secrets
      ≡ cluster.secrets)
    ⊎ (Stored deps settings laws target rotated_cr rotated_cluster
        × (rotated_cr.status.rotation ≡ wrap64 (pos 3 +ℤ pos 1)))
secret_after_account_example =
    secret_after_account deps settings laws target readings image_secret empty_secret cluster

-- The CR is being deleted; the account is another CR's.
abbrev deleted_secret : ImageSecret
deleted_secret = record image_secret {
  meta = record image_secret.meta { deletion_timestamp = some (seconds 90) };
}

abbrev ending : World
ending = record cluster { crs = deleted_secret ∷ []; accounts = account ∷ [] }

finalized : (reconcile deps settings readings request ending).0.error ≡ none
unfolding reconcile finalize delete_orphan_accounts has_finalizer find put is_empty text_eq
finalized = refl

finalizer_deletes_all_accounts_example :
    (e : Error) × ((memory account_key).get
        (account_key account)
        (reconcile deps settings readings request ending).1.accounts
      ≡ err e)
    × (is_not_found e ≡ true)
unfolding find has_finalizer is_empty text_eq
finalizer_deletes_all_accounts_example =
    finalizer_deletes_all_accounts deps deletion_laws settings readings request deleted_secret
      ending (seconds 90) (account_key account) refl refl refl refl finalized refl

account_name-injective_example :
    (pull ≡ pull) × (text "apps" ≡ text "apps") × (text "web.v1" ≡ text "web.v1") × (pos 3 ≡ pos 3)
account_name-injective_example =
    account_name-injective pull pull (text "apps") (text "apps") (text "web.v1") (text "web.v1")
      (pos 3) (pos 3) (omega arith) (omega arith) refl
