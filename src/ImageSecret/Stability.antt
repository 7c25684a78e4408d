-- ===== src/ImageSecret/Stability.antt =====
-- A rotation is not repeated: what it left behind needs no further rotation until the renewal is due
-- or the registry changes.
use image_registry_operator.Prelude.{◌≡◌, sym, ◌∙◌, ap, true, false, none, some}
use image_registry_operator.Go.Text.{Text, text_eq_refl, format_int}
use image_registry_operator.Go.Map.{lookup}
use image_registry_operator.Go.Error.{ok}
use image_registry_operator.Kube.Meta.{NamespacedName, Secret, key_of}
use image_registry_operator.Kube.Api.{Api}
use image_registry_operator.V1alpha1.{ImageSecret, ImageRegistryAccount}
use image_registry_operator.ImageSecret.Names.{account_name_for_cr, secret_name_for_cr}
use image_registry_operator.ImageSecret.Deps.{Cluster, Settings, Deps, Readings}
use image_registry_operator.ImageSecret.Rotate.{
  TargetRegistry, annotation_secret_rotation, rotate_password,
}
use image_registry_operator.ImageSecret.Checks.{
  fetch, hostname_ca_changed, secret_out_of_sync, needs_renewal, must_rotate,
}
use image_registry_operator.ImageSecret.Reconcile.{finish, sync, reconcile_registered}
use image_registry_operator.ImageSecret.Steps.{Holds}
use image_registry_operator.ImageSecret.Laws.{Laws, HasOwnKey, secret_key}
use image_registry_operator.ImageSecret.Consistency.{Rotated, rotate_password-Rotated}

Holds-unchanged :
    (registry : TargetRegistry) (user password : Text) (secret : Secret)
    → Holds registry user password secret
    → hostname_ca_changed registry secret ≡ false
unfolding hostname_ca_changed
Holds-unchanged registry user password secret h =
    rw (h.hostname, h.ca, text_eq_refl registry.hostname, text_eq_refl registry.ca)

annotated-in_sync :
    (cr : ImageSecret) (secret : Secret)
    → lookup annotation_secret_rotation secret.meta.annotations
      ≡ some (format_int cr.status.rotation)
    → secret_out_of_sync cr secret ≡ false
unfolding secret_out_of_sync
annotated-in_sync cr secret h = rw (h, text_eq_refl (format_int cr.status.rotation))

fetch-ok :
    {S Obj : Type 0} (api : Api S Obj) (key : NamespacedName) (zero o : Obj) (s : S)
    → api.get key s ≡ ok o
    → fetch api key zero s ≡ ok (true, o)
unfolding fetch
fetch-ok api key zero o s h = rw (h, fetch)

-- The secret is the one that the reconciler looks for.
secret_place :
    (cr cr' : ImageSecret) (key : NamespacedName)
    → key ≡ record { namespace = cr.meta.namespace; name = secret_name_for_cr cr }
    → cr'.registry_access_mode ≡ cr.registry_access_mode
    → key_of cr'.meta ≡ key_of cr.meta
    → key ≡ record { namespace = cr'.meta.namespace; name = secret_name_for_cr cr' }
unfolding secret_name_for_cr
secret_place cr cr' key place mode same = cc

module _ {C A S R : Type 0} (deps : Deps C A S R) (cfg : Settings) (laws : Laws deps)
    (own : HasOwnKey cfg) where
  no_rotation :
      (r : Readings) (registry : TargetRegistry) (password : Text) (key : NamespacedName)
      (cr cr' : ImageSecret) (cl : Cluster C A S R) (account : ImageRegistryAccount)
      (rotated : Rotated deps registry password key cr cr' cl)
      → needs_renewal cfg r.later account ≡ false
      → sync deps cfg r cr' registry (true, account) (true, rotated.secret) cl
        ≡ finish deps cfg r account cr' cl
  unfolding sync must_rotate
  no_rotation r registry password key cr cr' cl account rotated fresh = rw (
    annotated-in_sync cr' rotated.secret rotated.annotated,
    fresh,
    Holds-unchanged registry (account_name_for_cr cr') password rotated.secret rotated.holds,
  )

  settled :
      (r : Readings) (registry : TargetRegistry) (password : Text) (key : NamespacedName)
      (cr cr' : ImageSecret) (cl : Cluster C A S R) (account : ImageRegistryAccount)
      → Rotated deps registry password key cr cr' cl
      → key ≡ record { namespace = cr'.meta.namespace; name = secret_name_for_cr cr' }
      → deps.account_api.get
          (record { namespace = registry.namespace; name = account_name_for_cr cr' })
          cl.accounts
        ≡ ok account
      → needs_renewal cfg r.later account ≡ false
      → reconcile_registered deps cfg r cr' registry cl ≡ finish deps cfg r account cr' cl
  unfolding reconcile_registered
  settled r registry password key cr cr' cl account rotated place found fresh =
      rw (fetch-ok deps.account_api _ _ account cl.accounts found, reconcile_registered)
        (rw
          (
            fetch-ok deps.secret_api _ _ rotated.secret cl.secrets
                (ap (λ k. deps.secret_api.get k cl.secrets) (sym place) ∙ rotated.secret_stored),
            reconcile_registered,
          )
          (no_rotation r registry password key cr cr' cl account rotated fresh))

  -- Once a rotation has succeeded, reconciling the CR that it left, in the cluster that it left
  -- and with the same registry, only sets the ready condition, as long as the account that is then
  -- found is not due for renewal. The secret that was rotated is the CR's.
  pub reconcile_after_rotation :
      (r later : Readings) (registry : TargetRegistry) (cr cr' : ImageSecret) (secret : Secret)
      (cl cl' : Cluster C A S R) (account : ImageRegistryAccount)
      → secret_key secret ≡ record { namespace = cr.meta.namespace; name = secret_name_for_cr cr }
      → rotate_password deps cfg r cr registry secret cl ≡ (none, cr', cl')
      → deps.account_api.get
          (record { namespace = registry.namespace; name = account_name_for_cr cr' })
          cl'.accounts
        ≡ ok account
      → needs_renewal cfg later.later account ≡ false
      → reconcile_registered deps cfg later cr' registry cl' ≡ finish deps cfg later account cr' cl'
  reconcile_after_rotation r later registry cr cr' secret cl cl' account place e found fresh =
      let rotated = rotate_password-Rotated deps cfg laws own r registry cr cr' secret cl cl' e in
      settled later registry _ (secret_key secret) cr cr' cl' account rotated
        (secret_place cr cr' (secret_key secret) place rotated.same_mode rotated.same_key) found
        fresh
