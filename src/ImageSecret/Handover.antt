-- ===== src/ImageSecret/Handover.antt =====
-- The image secret reconciler and the account controller on the same account (`Reconcile` of
-- pkg/controller/imagesecret and of pkg/controller/imageregistryaccount).
use image_registry_operator.Prelude.{◌≡◌, ap, Bool, true, false, none, some, arith}
use image_registry_operator.Prelude.Int.{◌+ℤ◌, ◌-ℤ◌, ◌≤ℤ◌, ◌<ℤ◌, ltb_ℤ, int_laws}
use image_registry_operator.Go.Text.{Text}
use image_registry_operator.Go.Error.{ok}
use image_registry_operator.Go.Panic.{done}
use image_registry_operator.Go.Time.{Time, Duration, sub_time, seconds, max_int64}
use image_registry_operator.Kube.Meta.{NamespacedName, Secret}
use image_registry_operator.Kube.Api.{Api}
use image_registry_operator.V1alpha1.{ImageSecret, ImageRegistryAccount, expired}
use image_registry_operator.ImageSecret.Deps.{Settings, Readings}
use image_registry_operator.ImageSecret.Rotate.{TargetRegistry, new_account}
use image_registry_operator.ImageSecret.Checks.{needs_renewal, must_rotate, renewal_ttl}
use image_registry_operator.ImageSecret.Schedule.{renewal_scheduled}
use image_registry_operator.ImageSecret.Config.{
  Environment, Config, new_settings, rotates_before_expiry,
}
use image_registry_operator.Account

-- `Sub` saturates, so that a difference past a bound stays past it.
sub_time-past :
    (t u : Time) (d : Duration) → d <ℤ max_int64 → u +ℤ d <ℤ t → ltb_ℤ d (sub_time t u) ≡ true
unfolding sub_time ◌-ℤ◌ ◌+ℤ◌
sub_time-past t u d h k = ground arith

due :
    (cfg : Settings) (r : Readings) (registry : TargetRegistry) (cr : ImageSecret)
    (account : ImageRegistryAccount) (secret : Bool × Secret)
    → cfg.rotation_interval <ℤ max_int64
    → account.meta.creation_timestamp +ℤ cfg.rotation_interval <ℤ r.later
    → must_rotate cfg r registry cr (true, account) secret ≡ true
unfolding must_rotate needs_renewal
due cfg r registry cr account (there, secret) fits late =
    ground
      (arith, sub_time-past r.later account.meta.creation_timestamp cfg.rotation_interval fits late)

-- The account controller leaves an account whose TTL is not over.
kept :
    {A : Type 0} (api : Api A ImageRegistryAccount) (now later : Time) (request : NamespacedName)
    (s : A) (account : ImageRegistryAccount) (ttl : Duration)
    → api.get request s ≡ ok account
    → account.spec.ttl ≡ some ttl
    → now ≤ℤ account.meta.creation_timestamp +ℤ ttl
    → ((Account.reconcile api now later request s).1 ≡ s)
      × ((Account.reconcile api now later request s).0.error ≡ none)
unfolding Account.reconcile expired
kept api now later request s account ttl found has before =
    (ground (arith, found, has, before), ground (arith, found, has, before))

-- Whatever the environment of the operator, the passwords of a CR overlap: if an account that a
-- rotation made is not due for renewal, the check that the reconciler asks for next rotates the
-- password, however late it comes, and the account controller leaves the account until a rotation
-- interval less 30 s behind that check. The interval is at most int64 less a minute, the account is
-- not from the future, and the clock does not go back.
pub passwords_overlap :
    {A : Type 0} (env : Environment) (cfg : Config) (settings : Settings)
    (api : Api A ImageRegistryAccount) (registry : TargetRegistry) (cr : ImageSecret) (hash : Text)
    (request : NamespacedName) (s : A) (account : ImageRegistryAccount) (r next : Readings)
    (cr' : ImageSecret) (registry' : TargetRegistry) (secret : Bool × Secret) (now later : Time)
    → new_settings env cfg ≡ done settings
    → api.get request s ≡ ok account
    → account.spec ≡ (new_account settings registry cr hash).spec
    → needs_renewal settings r.later account ≡ false
    → account.meta.creation_timestamp ≤ℤ r.now
    → r.now ≤ℤ r.later
    → settings.rotation_interval +ℤ seconds 60 ≤ℤ max_int64
    → r.now +ℤ renewal_ttl settings r.now account ≤ℤ next.later
    → now +ℤ seconds 30 ≤ℤ r.now +ℤ renewal_ttl settings r.now account +ℤ settings.rotation_interval
    → (must_rotate settings next registry' cr' (true, account) secret ≡ true)
      × ((Account.reconcile api now later request s).1 ≡ s)
      × ((Account.reconcile api now later request s).0.error ≡ none)
unfolding new_account
passwords_overlap env cfg settings api registry cr hash request s account r next cr' registry'
      secret now later started found made live past order fits late before =
    let (positive, low, twice) = rotates_before_expiry env cfg settings started in
    let (at, least, most) = renewal_scheduled settings r account live past order low fits in
    let i = settings.rotation_interval in
    let after : account.meta.creation_timestamp +ℤ i +ℤ seconds 30 ≤ℤ next.later = rw at at late in
    let until : now +ℤ seconds 30 ≤ℤ account.meta.creation_timestamp +ℤ i +ℤ seconds 30 +ℤ i =
      rw at at before in
    let has : account.spec.ttl ≡ some settings.account_ttl = ap (λ x. x.ttl) made in
    let (same, fine) =
      kept api now later request s account settings.account_ttl found has (omega int_laws) in
    (due settings next registry' cr' account secret (omega int_laws) (omega int_laws), same, fine)
