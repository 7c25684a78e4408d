-- ===== src/Auth/Completeness.antt =====
-- Who has an account is let in, whatever the cache holds (`Authenticate` of pkg/auth/auth.go).
use image_registry_operator.Prelude.{
  ◌≡◌, sym, ap, ◌∙◌, inl, inr, Bool, true, false, Bool-cases, some, Option-cases, [], ◌∷◌,
  if◌then◌else◌, arith,
}
use image_registry_operator.Prelude.Int.{◌≤ℤ◌}
use image_registry_operator.Go.Text.{Text, text, text_eq, is_empty}
use image_registry_operator.Go.Map.{lookup, insert, lookup-insert}
use image_registry_operator.Go.Error.{Result, ok}
use image_registry_operator.Go.Time.{Time}
use image_registry_operator.Kube.Meta.{NamespacedName}
use image_registry_operator.V1alpha1.{ImageRegistryAccount}
use image_registry_operator.Auth.{
  Cache, Labels, cache_expired, account_labels, to_cached, fetch_account, find_account,
  authenticate,
}
use image_registry_operator.Auth.Genuine.{IsGenuine, IsGenuine-later, Came-lookup}
use image_registry_operator.Auth.Freshness.{History, History-IsGenuine}

-- What is looked up in the labels of an account: its origin and its name come before its spec.
account_labels-lookup :
    (acc : ImageRegistryAccount) (k : Text)
    → lookup k (account_labels acc) ≡ (
        if text_eq (text "account") k
        then some (acc.meta.name ∷ [])
        else if text_eq (text "origin") k
        then some (text "cr" ∷ [])
        else lookup k acc.spec.labels)
unfolding account_labels
account_labels-lookup acc k =
    let name = acc.meta.name ∷ [] in
    let origin = text "cr" ∷ [] in
    lookup-insert (text "account") k name (insert (text "origin") origin acc.spec.labels)
    ∙ ap (λ l. if text_eq (text "account") k then some name else l)
        (lookup-insert (text "origin") k origin acc.spec.labels)

module _ (api : Time → NamespacedName → Result ImageRegistryAccount) (namespace : Text) where
  fetch_account-given :
      (now : Time) (user : Text) (c : Cache) (acc : ImageRegistryAccount)
      → api now (record { namespace = namespace; name = user }) ≡ ok acc
      → (fetch_account (api now) namespace now user c).0 ≡ ok (some (to_cached now acc))
  unfolding fetch_account
  fetch_account-given now user c acc p = ground (arith, p)

  -- Whether it is cached, expired or not known yet: the account that is found is the user's.
  find_account-given :
      (now : Time) (user : Text) (c : Cache) (acc : ImageRegistryAccount)
      → IsGenuine api namespace now c
      → ((u : Time) → u ≤ℤ now → api u (record { namespace = namespace; name = user }) ≡ ok acc)
      → (u : Time) × ((find_account (api now) namespace now user c).0 ≡ ok (some (to_cached u acc)))
  unfolding find_account
  find_account-given now user c acc genuine given =
      let fetched = fetch_account-given now user c acc (given now (omega arith)) in
      elim (Option-cases (lookup user c)) [
        | inl p ↦ (now, rw (p, find_account) fetched)
        | inr (a, p) ↦ elim (Bool-cases (cache_expired now a)) [
          | inl h ↦ (now, rw (p, find_account) (rw h fetched))
          | inr h ↦
              let (u, own, past, found, same) = Came-lookup api namespace user a now c genuine p in
              let the_same : own ≡ acc = ground (arith, sym found ∙ given u past) in
              (
                u,
                rw (p, find_account)
                    (rw h (ap (λ x. ok (some x)) (same ∙ ap (to_cached u) the_same))),
              )
        ]
      ]

  module _ (matches : Text → Text → Bool) where
    -- After any history of calls, a user whose account has been in the API all the time, as it is, is
    -- let in with a password that matches its hash, and gets these labels: the origin "cr", the name
    -- of the account, and else those of its spec. The user name and the password are not empty.
    pub authenticate_complete :
        (t now : Time) (c : Cache) (user passwd : Text) (acc : ImageRegistryAccount) (k : Text)
        → History api namespace matches t c
        → t ≤ℤ now
        → is_empty user ≡ false
        → is_empty passwd ≡ false
        → ((u : Time) → u ≤ℤ now → api u (record { namespace = namespace; name = user }) ≡ ok acc)
        → matches acc.spec.password passwd ≡ true
        → (labels : Labels) × ((authenticate (api now) matches namespace now user passwd c).0
            ≡ ok (some labels))
          × (lookup k labels ≡ (
              if text_eq (text "account") k
              then some (acc.meta.name ∷ [])
              else if text_eq (text "origin") k
              then some (text "cr" ∷ [])
              else lookup k acc.spec.labels))
    unfolding authenticate to_cached
    authenticate_complete t now c user passwd acc k history order named given there match =
        let genuine =
          IsGenuine-later api namespace t now c order
            (History-IsGenuine api namespace matches history) in
        let (u, found) = find_account-given now user c acc genuine there in
        (
          account_labels acc,
          ground (arith, named, given, found, match),
          account_labels-lookup acc k,
        )
