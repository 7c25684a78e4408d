-- ===== src/Tests/Clocks.antt =====
-- Clocks and lifetimes at concrete times.
use image_registry_operator.Prelude.{
  ℕ, zero, suc, ◌≡◌, ◌⊎◌, refl, true, false, some, none, [], ◌∷◌, arith,
}
use image_registry_operator.Prelude.Int.{pos, ◌+ℤ◌, ◌-ℤ◌, ◌≤ℤ◌, ◌<ℤ◌}
use image_registry_operator.Go.Text.{text, text_eq, is_empty}
use image_registry_operator.Go.Error.{ok}
use image_registry_operator.Go.Time.{Time, Duration, seconds, sub_time, add_duration, wrap64}
use image_registry_operator.Kube.Meta.{NamespacedName}
use image_registry_operator.Kube.Memory.{memory, find}
use image_registry_operator.V1alpha1.{ImageRegistryAccount, expired}
use image_registry_operator.ImageSecret.Checks.{needs_renewal, must_rotate, renewal_ttl}
use image_registry_operator.ImageSecret.Rotate.{new_account}
use image_registry_operator.ImageSecret.Handover.{passwords_overlap}
use image_registry_operator.ImageSecret.Laws.{account_key}
use image_registry_operator.Account
use image_registry_operator.Account.Lifetime.{runs, runs_end_with_deletion}
use image_registry_operator.ImageRegistry.Names.{dns_zone}
use image_registry_operator.Tests.World.{
  settings, readings, account, target, image_secret, empty_secret,
}
use image_registry_operator.Go.Error.{failure, err}
use image_registry_operator.Go.Panic.{done}
use image_registry_operator.ImageSecret.Deps.{Settings, Readings}
use image_registry_operator.ImageSecret.Config.{
  Environment, Config, new_settings, account_ttl, default_namespace, rotates_before_expiry,
}

-- The environment of a pod in the namespace "infra", without variables.
abbrev pub environment : Environment
environment = record {
  getenv = λ name. [];
  watch_namespace_env_var = text "WATCH_NAMESPACE";
  operator_namespace = ok (text "infra");
  parse_duration = λ s. err (failure s);
}

abbrev config : Config
config = record {
  secret_type = text "kubernetes.io/dockerconfigjson";
  docker_config_key = text ".dockerconfigjson";
  account_label = text "pull";
}

abbrev started : Settings
started = record settings { rotation_interval = seconds 43200; account_ttl = seconds 86400 }

configured : new_settings environment config ≡ done started
unfolding new_settings account_ttl default_namespace dns_zone is_empty
configured = refl

rotates_before_expiry_example :
    (pos 1 ≤ℤ seconds 86400)
    × (pos 0 ≤ℤ seconds 43200)
    × (seconds 43200 +ℤ seconds 43200 ≤ℤ seconds 86400)
rotates_before_expiry_example = rotates_before_expiry environment config started configured

abbrev request : NamespacedName
request = record { namespace = text "infra"; name = text "pull.apps.web.3" }

abbrev rotated : ImageRegistryAccount
rotated = record account { spec = (new_account started target image_secret (text "$hash")).spec }

-- Almost two hours behind the time of the next check.
abbrev next : Readings
next = record readings { later = seconds 50000 }

not_due : needs_renewal started readings.later rotated ≡ false
unfolding needs_renewal sub_time ◌-ℤ◌
not_due = refl

passwords_overlap_example :
    (must_rotate started next target image_secret (true, rotated) (true, empty_secret) ≡ true)
    × ((Account.reconcile
          (memory account_key)
          (seconds 86000)
          (seconds 86001)
          request
          (rotated ∷ [])).1
        ≡ rotated ∷ [])
    × ((Account.reconcile
          (memory account_key)
          (seconds 86000)
          (seconds 86001)
          request
          (rotated ∷ [])).0.error
        ≡ none)
unfolding renewal_ttl add_duration sub_time wrap64 ◌+ℤ◌ ◌-ℤ◌ find text_eq
passwords_overlap_example =
    passwords_overlap environment config started (memory account_key) target image_secret
      (text "$hash") request (rotated ∷ []) rotated readings next image_secret target
      (true, empty_secret) (seconds 86000) (seconds 86001) configured refl refl not_due
      (omega arith) (omega arith) (omega arith) (omega arith) (omega arith)

-- Half a second before the account's end.
abbrev now : Time
now = pos 49_500_000_000

deletes_only_expired_example :
    ((Account.reconcile (memory account_key) (seconds 60) (seconds 60) request (account ∷ [])).1
      ≡ account ∷ [])
    ⊎ ((a : ImageRegistryAccount) × (ttl : Duration) × (find account_key request (account ∷ [])
          ≡ ok a)
        × (a.spec.ttl ≡ some ttl)
        × (a.meta.creation_timestamp +ℤ ttl <ℤ seconds 60)
        × (Account.reconcile (memory account_key) (seconds 60) (seconds 60) request (account ∷ [])
            ≡ (
              Account.done ((memory account_key).delete a (account ∷ [])).0,
              ((memory account_key).delete a (account ∷ [])).1,
            )))
deletes_only_expired_example =
    Account.deletes_only_expired (memory account_key) (seconds 60) (seconds 60) request
      (account ∷ [])

-- Half a second before the account's end, and when the run there asks for another.
abbrev readings_at : ℕ → Time × Time
readings_at zero = (now, now)
readings_at (suc i) = (seconds 60, seconds 60)

runs_end_with_deletion_example :
    runs (memory account_key) readings_at request 2 0 (account ∷ [])
    ≡ some ((memory account_key).delete account (account ∷ [])).1
unfolding Account.reconcile find text_eq expired ◌+ℤ◌ ◌-ℤ◌ sub_time add_duration wrap64
runs_end_with_deletion_example =
    runs_end_with_deletion (memory account_key) readings_at request (account ∷ []) account
      (seconds 50) refl refl refl 0 0 (omega arith) (omega arith) (omega arith) (omega arith)
