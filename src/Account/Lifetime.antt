-- ===== src/Account/Lifetime.antt =====
-- The runs for one account until none is asked for: a run is repeated at once or later if it ends
-- with an error or asks for a further one.
use image_registry_operator.Prelude.{
  ℕ, zero, suc, ◌≡◌, refl, ◌∙◌, Bool-cases, inl, inr, Bool, true, false, Option, none, some, arith,
  if◌then◌else◌,
}
use image_registry_operator.Prelude.Int.{ℤ, pos, ◌+ℤ◌, ◌-ℤ◌, ◌≤ℤ◌, ◌<ℤ◌, ltb_ℤ, int_laws}
use image_registry_operator.Go.Error.{ok}
use image_registry_operator.Go.Time.{
  Time, Duration, sub_time_exact, add_duration, wrap64_lem, seconds, max_int64,
}
use image_registry_operator.Kube.Meta.{NamespacedName}
use image_registry_operator.Kube.Api.{Api}
use image_registry_operator.V1alpha1.{ImageRegistryAccount, expired}
use image_registry_operator.Account.{Outcome, expiry_delay, reconcile}

lt→ltb_ℤ : (a b : ℤ) → a <ℤ b → ltb_ℤ a b ≡ true
lt→ltb_ℤ a b h = ground arith

abbrev again : Outcome → Bool
again o = elim o.error [ some e ↦ true | none ↦ ltb_ℤ (pos 0) o.requeue_after ]

-- The delay is exact also where the end has passed by less than 10 s.
expiry_delay_exact :
    (now : Time) (account : ImageRegistryAccount) (ttl : Duration)
    → account.meta.creation_timestamp ≤ℤ now
    → now <ℤ account.meta.creation_timestamp +ℤ ttl +ℤ seconds 10
    → ttl +ℤ seconds 10 ≤ℤ max_int64
    → expiry_delay now account ttl ≡ account.meta.creation_timestamp +ℤ ttl -ℤ now +ℤ seconds 10
unfolding add_duration
expiry_delay_exact now account ttl past near fits =
    let end = account.meta.creation_timestamp +ℤ ttl in
    rw (sub_time_exact end now (omega int_laws) (omega int_laws))
      (wrap64_lem (end -ℤ now +ℤ seconds 10) (omega int_laws))

module _ (now : Time) (account : ImageRegistryAccount) (ttl : Duration)
    (has : account.spec.ttl ≡ some ttl) where
  live-le : expired now account ≡ false → now ≤ℤ account.meta.creation_timestamp +ℤ ttl
  unfolding expired
  live-le h = ground (arith, has, h)

  expired-over : account.meta.creation_timestamp +ℤ ttl <ℤ now → expired now account ≡ true
  unfolding expired
  expired-over h = ground (arith, has, h)

module _ {A : Type 0} (api : Api A ImageRegistryAccount) (clock : ℕ → Time × Time)
    (request : NamespacedName) where
  -- The runs from the i-th on, whose readings of the clock are `clock i`; `none` if a run more than
  -- `fuel` is asked for.
  pub runs : ℕ → ℕ → A → Option A
  runs zero i s = none
  runs (suc fuel) i s =
      let r = reconcile api (clock i).0 (clock i).1 request s in
      let rest = runs fuel (suc i) r.1 in if again r.0 then rest else some r.1

  module _ (s : A) (account : ImageRegistryAccount) (ttl : Duration)
      (found : api.get request s ≡ ok account) (has : account.spec.ttl ≡ some ttl)
      (deleted : (api.delete account s).0 ≡ none) where
    -- The run in which the account is over is the last.
    runs-expired :
        (fuel i : ℕ)
        → expired (clock i).0 account ≡ true
        → runs (suc fuel) i s ≡ some (api.delete account s).1
    unfolding runs reconcile
    runs-expired fuel i over = ground (arith, found, has, over, deleted)

    -- The run before asks for another.
    runs-live :
        (fuel i : ℕ)
        → expired (clock i).0 account ≡ false
        → pos 0 <ℤ expiry_delay (clock i).1 account ttl
        → runs (suc fuel) i s ≡ runs fuel (suc i) s
    unfolding runs reconcile
    runs-live fuel i live more =
        let answer : reconcile api (clock i).0 (clock i).1 request s
            ≡ (record { requeue_after = expiry_delay (clock i).1 account ttl; error = none }, s) =
          ground (arith, found, has, live) in
        rw answer (rw (lt→ltb_ℤ (pos 0) (expiry_delay (clock i).1 account ttl) more) refl)

    asks_again :
        (i : ℕ)
        → expired (clock i).0 account ≡ false
        → (reconcile api (clock i).0 (clock i).1 request s).0.requeue_after
          ≡ expiry_delay (clock i).1 account ttl
    unfolding reconcile
    asks_again i live = ground (arith, found, has, live)

    -- The runs for an account with a TTL end with its deletion, in the first run or in the second. The
    -- second comes as late as the first asks for, the readings of the clock in a run are less than
    -- 10 s apart, the account is not from the future, the TTL and 10 s are within int64, and the
    -- deletion succeeds.
    pub runs_end_with_deletion :
        (fuel i : ℕ)
        → account.meta.creation_timestamp ≤ℤ (clock i).1
        → (clock i).1 <ℤ (clock i).0 +ℤ seconds 10
        → ttl +ℤ seconds 10 ≤ℤ max_int64
        → (clock i).1 +ℤ (reconcile api (clock i).0 (clock i).1 request s).0.requeue_after
          ≤ℤ (clock (suc i)).0
        → runs (suc (suc fuel)) i s ≡ some (api.delete account s).1
    runs_end_with_deletion fuel i past near fits waits =
        elim (Bool-cases (expired (clock i).0 account)) [
          | inl over ↦ runs-expired (suc fuel) i over
          | inr live ↦
              let end = account.meta.creation_timestamp +ℤ ttl in
              let later = (clock i).1 in
              let before = live-le (clock i).0 account ttl has live in
              let exact = expiry_delay_exact later account ttl past (omega int_laws) fits in
              let next : later +ℤ (end -ℤ later +ℤ seconds 10) ≤ℤ (clock (suc i)).0 =
                rw (asks_again i live, exact) at waits in
              runs-live (suc fuel) i live (rw exact (omega int_laws))
              ∙ runs-expired fuel (suc i)
                  (expired-over (clock (suc i)).0 account ttl has (omega int_laws))
        ]
