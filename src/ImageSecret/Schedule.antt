-- ===== src/ImageSecret/Schedule.antt =====
-- When the reconciler looks at a CR again.
use image_registry_operator.Prelude.{◌≡◌, false, arith}
use image_registry_operator.Prelude.Int.{pos, ◌+ℤ◌, ◌-ℤ◌, ◌≤ℤ◌, ◌<ℤ◌, int_laws}
use image_registry_operator.Go.Time.{Time, sub_time, delay_exact, seconds, max_int64}
use image_registry_operator.V1alpha1.{ImageRegistryAccount}
use image_registry_operator.ImageSecret.Deps.{Settings, Readings}
use image_registry_operator.ImageSecret.Checks.{needs_renewal, renewal_ttl}

-- No renewal is due: so much time has not passed since the account was created.
not_due :
    (cfg : Settings) (now : Time) (account : ImageRegistryAccount)
    → needs_renewal cfg now account ≡ false
    → cfg.rotation_interval <ℤ max_int64
    → now -ℤ account.meta.creation_timestamp ≤ℤ cfg.rotation_interval
unfolding needs_renewal sub_time
not_due cfg now account h k = ground arith

renewal_ttl_exact :
    (cfg : Settings) (now : Time) (account : ImageRegistryAccount)
    → let left = account.meta.creation_timestamp +ℤ cfg.rotation_interval -ℤ now in
      pos 0 ≤ℤ left
      → left +ℤ seconds 30 ≤ℤ max_int64
      → renewal_ttl cfg now account ≡ left +ℤ seconds 30
unfolding renewal_ttl
renewal_ttl_exact cfg now account low high =
    delay_exact (account.meta.creation_timestamp +ℤ cfg.rotation_interval) now (seconds 30) low
      (omega arith) high

-- With an account that is not due for renewal the next check is asked for at the end of the
-- rotation interval and 30 s more, and so between 30 s and the interval and 30 s from now. The
-- interval is not negative and at most int64 less a minute, the account is not from the future,
-- and the clock does not go back.
pub renewal_scheduled :
    (cfg : Settings) (r : Readings) (account : ImageRegistryAccount)
    → needs_renewal cfg r.later account ≡ false
    → account.meta.creation_timestamp ≤ℤ r.now
    → r.now ≤ℤ r.later
    → pos 0 ≤ℤ cfg.rotation_interval
    → cfg.rotation_interval +ℤ seconds 60 ≤ℤ max_int64
    → (r.now +ℤ renewal_ttl cfg r.now account
        ≡ account.meta.creation_timestamp +ℤ cfg.rotation_interval +ℤ seconds 30)
      × (seconds 30 ≤ℤ renewal_ttl cfg r.now account)
      × (renewal_ttl cfg r.now account ≤ℤ cfg.rotation_interval +ℤ seconds 30)
unfolding renewal_ttl
renewal_scheduled cfg r account h past order low high =
    let c = account.meta.creation_timestamp in
    let i = cfg.rotation_interval in
    let due = not_due cfg r.later account h (omega int_laws) in
    let exact = renewal_ttl_exact cfg r.now account (omega int_laws) (omega int_laws) in
    rw exact (omega int_laws, omega int_laws, omega int_laws)
