-- ===== src/ImageSecret/Checks.antt =====
-- What `Reconcile` of pkg/controller/imagesecret/secretreconciler.go asks of an account and of a secret,
-- with `get` and `getRegistryKeyForCR`, and what it returns.
use image_registry_operator.Prelude.{
  Bool, true, false, not, ◌||◌, Option, none, some, [], if◌then◌else◌,
}
use image_registry_operator.Prelude.Int.{pos, ltb_ℤ}
use image_registry_operator.Go.Text.{Text, text, text_eq, is_empty, format_int}
use image_registry_operator.Go.Map.{lookup, or_empty}
use image_registry_operator.Go.Error.{Error, Result, ok, err, is_not_found}
use image_registry_operator.Go.Time.{Time, Duration, seconds, add_time, sub_time, add_duration}
use image_registry_operator.Kube.Meta.{new_meta, NamespacedName, Secret}
use image_registry_operator.Kube.Api.{Api}
use image_registry_operator.V1alpha1.{
  ImageSecret, ImageRegistryAccount, secret_key_registry, secret_key_ca_cert,
}
use image_registry_operator.ImageSecret.Deps.{Settings, Readings}
use image_registry_operator.ImageSecret.Rotate.{TargetRegistry, annotation_secret_rotation}

abbrev pub finalizer : Text
finalizer = text "registry.mgoltzsche.github.com/accounts"

-- reconcile.Result and the error; a `requeue_after` of 0 asks for nothing.
pub record Outcome : Type 0 where
  pub requeue_after : Duration
  pub error : Option Error

abbrev pub done : Option Error → Outcome
done e = record { requeue_after = pos 0; error = e }

-- The zero account and secret that `Get` fills.
abbrev pub new_account_object : Text → Text → ImageRegistryAccount
new_account_object namespace name = record {
  meta = new_meta namespace name;
  spec = record { password = []; labels = []; ttl = none };
}

abbrev pub new_secret_object : Text → Text → Secret
new_secret_object namespace name = record {
  meta = new_meta namespace name;
  type = [];
  contents = none;
}

-- `get`: whether the object exists, and the object as `Get` leaves it.
unfoldable pub fetch : {S Obj : Type 0} → Api S Obj → NamespacedName → Obj → S → Result (Bool × Obj)
fetch api key zero s = elim (api.get key s) [
  | ok o ↦ ok (true, o)
  | err e ↦ if is_not_found e then ok (false, zero) else err e
]

-- `secret.Data[k]`.
abbrev pub data_at : Text → Secret → Text
data_at k secret = or_empty (elim secret.contents [ none ↦ none | some m ↦ lookup k m ])

-- The CR's own reference, in its namespace if that is left out, or the default registry.
unfoldable pub get_registry_key_for_cr : Settings → ImageSecret → NamespacedName
get_registry_key_for_cr cfg cr = elim cr.registry_ref [
  | none ↦ record { namespace = cfg.default_registry.namespace; name = cfg.default_registry.name }
  | some registry ↦ record {
    namespace = if is_empty registry.namespace then cr.meta.namespace else registry.namespace;
    name = registry.name;
  }
]

-- `getRegistryKeyForCR` writes the namespace into the CR at hand.
unfoldable pub fill_registry_ref : ImageSecret → ImageSecret
fill_registry_ref cr = record cr {
  registry_ref = elim cr.registry_ref [
    | none ↦ none
    | some registry ↦ some (record registry {
      namespace = if is_empty registry.namespace then cr.meta.namespace else registry.namespace;
    })
  ];
}

-- The host or the CA that the secret names is no longer the registry's.
unfoldable pub hostname_ca_changed : TargetRegistry → Secret → Bool
hostname_ca_changed registry secret =
    not (text_eq (data_at secret_key_registry secret) registry.hostname)
    || not (text_eq (data_at secret_key_ca_cert secret) registry.ca)

-- A missing annotation reads as "", which is no number.
unfoldable pub secret_out_of_sync : ImageSecret → Secret → Bool
secret_out_of_sync cr secret = not (
    text_eq (or_empty (lookup annotation_secret_rotation secret.meta.annotations))
      (format_int cr.status.rotation))

unfoldable pub needs_renewal : Settings → Time → ImageRegistryAccount → Bool
needs_renewal cfg now account =
    ltb_ℤ cfg.rotation_interval (sub_time now account.meta.creation_timestamp)

-- The test in front of `rotatePassword`.
unfoldable pub must_rotate :
    Settings
    → Readings
    → TargetRegistry
    → ImageSecret
    → Bool × ImageRegistryAccount
    → Bool × Secret
    → Bool
must_rotate cfg r registry cr (account_exists, account) (secret_exists, secret) =
    not account_exists
    || (not secret_exists
        || (secret_out_of_sync cr secret
            || (needs_renewal cfg r.later account || hostname_ca_changed registry secret)))

-- `account.CreationTimestamp.Add(rotationInterval).Sub(now) + 30s`
unfoldable pub renewal_ttl : Settings → Time → ImageRegistryAccount → Duration
renewal_ttl cfg now account =
    add_duration (sub_time (add_time account.meta.creation_timestamp cfg.rotation_interval) now)
      (seconds 30)
