-- ===== src/Account.antt =====
-- pkg/controller/imageregistryaccount/imageregistryaccount_controller.go: accounts are deleted when
-- their time is over.
pub mod Lifetime
use image_registry_operator.Prelude.{
  ◌≡◌, refl, ◌⊎◌, inl, inr, Bool-cases, Option-cases, true, false, Option, none, some, arith,
  if◌then◌else◌,
}
use image_registry_operator.Prelude.Int.{pos, ◌+ℤ◌, ◌≤ℤ◌, ◌<ℤ◌, int_laws}
use image_registry_operator.Go.Error.{Error, ok, err, is_not_found, Result-cases}
use image_registry_operator.Go.Time.{
  Time, Duration, sub_time, delay_exact, add_time, add_duration, seconds, max_int64,
}
use image_registry_operator.Kube.Meta.{NamespacedName}
use image_registry_operator.Kube.Api.{Api}
use image_registry_operator.V1alpha1.{ImageRegistryAccount, expired}

-- reconcile.Result and the error.
pub record Outcome : Type 0 where
  pub requeue_after : Duration
  pub error : Option Error

abbrev pub done : Option Error → Outcome
done e = record { requeue_after = pos 0; error = e }

-- `expiryTime.Sub(time.Now()) + 10s`
abbrev pub expiry_delay : Time → ImageRegistryAccount → Duration → Duration
expiry_delay now a ttl =
    add_duration (sub_time (add_time a.meta.creation_timestamp ttl) now) (seconds 10)

over :
    (now : Time) (account : ImageRegistryAccount) (ttl : Duration)
    → account.spec.ttl ≡ some ttl
    → expired now account ≡ true
    → account.meta.creation_timestamp +ℤ ttl <ℤ now
unfolding expired
over now account ttl q h = ground (arith, q, h)

module _ {A : Type 0} (api : Api A ImageRegistryAccount) where
  -- `now` is the clock in `Expired`, `later` the one for the delay.
  unfoldable pub reconcile : Time → Time → NamespacedName → A → Outcome × A
  reconcile now later request s = elim (api.get request s) [
    | err e ↦ if is_not_found e then (done none, s) else (done (some e), s)
    | ok account ↦ elim account.spec.ttl [
      | none ↦ (done none, s)
      | some ttl ↦
          if expired now account
          then (let (e, s') = api.delete account s in (done e, s'))
          else (record { requeue_after = expiry_delay later account ttl; error = none }, s)
    ]
  ]

  -- An account is deleted only if it has a TTL that is over; whatever else happens, the accounts
  -- stay as they are.
  pub deletes_only_expired :
      (now later : Time) (request : NamespacedName) (s : A)
      → ((reconcile now later request s).1 ≡ s)
        ⊎ ((account : ImageRegistryAccount) × (ttl : Duration) × (api.get request s ≡ ok account)
            × (account.spec.ttl ≡ some ttl)
            × (account.meta.creation_timestamp +ℤ ttl <ℤ now)
            × (reconcile now later request s
                ≡ (done (api.delete account s).0, (api.delete account s).1)))
  unfolding reconcile
  deletes_only_expired now later request s = elim (Result-cases (api.get request s)) [
    | inr (e, p) ↦ inl (ground (arith, p))
    | inl (account, p) ↦ elim (Option-cases account.spec.ttl) [
      | inl q ↦ inl (ground (arith, p, q))
      | inr (ttl, q) ↦ elim (Bool-cases (expired now account)) [
        | inr h ↦ inl (ground (arith, p, q, h))
        | inl h ↦ inr (account, ttl, p, q, over now account ttl q h, ground (arith, p, q, h))
      ]
    ]
  ]

  -- An account that is not over, at a reading of the clock that is not past its end either, is
  -- looked at again 10 s behind its end, with no error and no change. The TTL and 10 s are within
  -- int64, and the account is not from the future.
  pub requeued_after_expiry :
      (now later : Time) (request : NamespacedName) (s : A) (account : ImageRegistryAccount)
      (ttl : Duration)
      → api.get request s ≡ ok account
      → account.spec.ttl ≡ some ttl
      → expired now account ≡ false
      → account.meta.creation_timestamp ≤ℤ later
      → ttl +ℤ seconds 10 ≤ℤ max_int64
      → later ≤ℤ account.meta.creation_timestamp +ℤ ttl
      → (later +ℤ (reconcile now later request s).0.requeue_after
          ≡ account.meta.creation_timestamp +ℤ ttl +ℤ seconds 10)
        × ((reconcile now later request s).0.error ≡ none)
        × ((reconcile now later request s).1 ≡ s)
  unfolding reconcile
  requeued_after_expiry now later request s account ttl found has live past fits before =
      let exact =
        delay_exact (account.meta.creation_timestamp +ℤ ttl) later (seconds 10) (omega int_laws)
          (omega arith) (omega int_laws) in
      let answer : reconcile now later request s
          ≡ (record { requeue_after = expiry_delay later account ttl; error = none }, s) =
        ground (arith, found, has, live) in
      rw answer (rw exact (omega int_laws), refl, refl)
