-- ===== src/Auth/Freshness.antt =====
-- What a successful authentication says about the accounts of the cluster, over any history of calls.
-- The accounts are a function of time here, so that they can change between calls.
use image_registry_operator.Prelude.{
  ◌≡◌, ◌≢◌, refl, subst, inl, inr, Bool, true, false, not, ◌&&◌, Bool-cases, Option, none, some,
  Option-cases, [], ◌∷◌, if◌then◌else◌, arith,
}
use image_registry_operator.Prelude.Int.{◌+ℤ◌, ◌≤ℤ◌, ltb_ℤ→le, int_laws}
use image_registry_operator.Go.Text.{Text, is_empty}
use image_registry_operator.Go.Map.{lookup}
use image_registry_operator.Go.Error.{Error, Result, ok, err, is_not_found, Result-cases}
use image_registry_operator.Go.Time.{Time}
use image_registry_operator.Kube.Meta.{NamespacedName}
use image_registry_operator.V1alpha1.{ImageRegistryAccount}
use image_registry_operator.Auth.{
  Cache, CachedAccount, Labels, cache_ttl, cache_expired, to_cached, fetch_account, find_account,
  authenticate, labels_if,
}
use image_registry_operator.Auth.Genuine.{
  Came, IsGenuine, IsGenuine-later, Came-lookup, add_to_cache-IsGenuine,
}

-- An entry of the cache that has not expired was read at most ten minutes ago.
still_valid :
    (now t : Time) (a : CachedAccount) (acc : ImageRegistryAccount)
    → a ≡ to_cached t acc
    → cache_expired now a ≡ false
    → now ≤ℤ t +ℤ cache_ttl
unfolding cache_expired to_cached
still_valid now t a acc same h = ltb_ℤ→le (t +ℤ cache_ttl) now (rw same at h)

is_empty-ne : (s : Text) → is_empty s ≡ false → s ≢ []
unfolding is_empty
is_empty-ne [] h = cc
is_empty-ne (b ∷ s) h = λ e. cc

given : (user passwd : Text) → (not (is_empty user) && not (is_empty passwd)) ≡ true → passwd ≢ []
given user passwd h = is_empty-ne passwd (ground arith)

module _ (api : Time → NamespacedName → Result ImageRegistryAccount) (namespace : Text) where
  -- A fresh account: what the API returned for the user at most ten minutes ago.
  abbrev pub IsFresh : Time → Text → CachedAccount → Type 0
  IsFresh now user a =
      (t : Time) × (acc : ImageRegistryAccount) × (t ≤ℤ now)
      × (now ≤ℤ t +ℤ cache_ttl)
      × (api t (record { namespace = namespace; name = user }) ≡ ok acc)
      × (a ≡ to_cached t acc)

  abbrev Found : Time → Text → Result (Option CachedAccount) → Type 0
  Found now user (ok (some a)) = IsFresh now user a
  Found now user (ok none) = Unit
  Found now user (err e) = Unit

  fetch_account-Found :
      (now : Time) (user : Text) (c : Cache)
      → IsGenuine api namespace now c
      → Found now user (fetch_account (api now) namespace now user c).0
        × IsGenuine api namespace now (fetch_account (api now) namespace now user c).1
  unfolding fetch_account
  fetch_account-Found now user c g =
      elim (Result-cases (api now (record { namespace = namespace; name = user }))) [
        | inr (e, p) ↦ rw (p, fetch_account) (missing e (is_not_found e), g)
        | inl (acc, p) ↦
            rw (p, fetch_account)
              (
                (now, acc, omega arith, omega int_laws, p, refl),
                add_to_cache-IsGenuine api namespace now user (to_cached now acc) c
                    (now, acc, omega arith, p, refl) g,
              )
      ]
    where
      missing : (e : Error) (b : Bool) → Found now user (if b then ok none else err e)
      missing e true = tt
      missing e false = tt

  find_account-Found :
      (now : Time) (user : Text) (c : Cache)
      → IsGenuine api namespace now c
      → Found now user (find_account (api now) namespace now user c).0
        × IsGenuine api namespace now (find_account (api now) namespace now user c).1
  unfolding find_account
  find_account-Found now user c g = elim (Option-cases (lookup user c)) [
    | inl p ↦ rw (p, find_account) (fetch_account-Found now user c g)
    | inr (a, p) ↦ elim (Bool-cases (cache_expired now a)) [
      | inl h ↦ rw (p, find_account) (rw h (fetch_account-Found now user c g))
      | inr h ↦
          rw (p, find_account) (rw h (fresh a h (Came-lookup api namespace user a now c g p), g))
    ]
  ]
    where
      fresh :
          (a : CachedAccount)
          → cache_expired now a ≡ false
          → Came api namespace now (user, a)
          → IsFresh now user a
      fresh a h (t, acc, past, found, same) =
          (t, acc, past, still_valid now t a acc same h, found, same)

  module _ (matches : Text → Text → Bool) where
    abbrev Admitted : Time → Text → Text → Result (Option Labels) → Type 0
    Admitted now user passwd (ok (some labels)) =
        (passwd ≢ [])
        × ((a : CachedAccount) × IsFresh now user a
            × (matches a.hashed_password passwd ≡ true)
            × (labels ≡ a.labels))
    Admitted now user passwd (ok none) = Unit
    Admitted now user passwd (err e) = Unit

    labels_if-Admitted :
        (now : Time) (user passwd : Text) (found : Result (Option CachedAccount))
        → passwd ≢ []
        → Found now user found
        → Admitted now user passwd (labels_if matches passwd found)
    labels_if-Admitted now user passwd (err e) h f = tt
    labels_if-Admitted now user passwd (ok none) h f = tt
    labels_if-Admitted now user passwd (ok (some a)) h f =
        elim (Bool-cases (matches a.hashed_password passwd)) [
          | inl m ↦ rw m (h, (a, f, m, refl))
          | inr m ↦ rw m tt
        ]

    authenticate-Admitted :
        (now : Time) (user passwd : Text) (c : Cache)
        → IsGenuine api namespace now c
        → Admitted now user passwd (authenticate (api now) matches namespace now user passwd c).0
          × IsGenuine api namespace now
              (authenticate (api now) matches namespace now user passwd c).1
    unfolding authenticate
    authenticate-Admitted now user passwd c g =
        elim (Bool-cases (not (is_empty user) && not (is_empty passwd))) [
          | inr h ↦ rw (h, authenticate) (tt, g)
          | inl h ↦
              let (f, g') = find_account-Found now user c g in
              rw (h, authenticate)
                (labels_if-Admitted now user passwd _ (given user passwd h) f, g')
        ]

    -- Calls in the order of time, each with a user name and a password.
    pub data History : Time → Cache → Type 0 where
      start : (t : Time) → History t []
      call :
          {t : Time} {c : Cache} (now : Time) (user passwd : Text)
          → History t c
          → t ≤ℤ now
          → History now (authenticate (api now) matches namespace now user passwd c).1

    pub History-IsGenuine : {t : Time} {c : Cache} → History t c → IsGenuine api namespace t c
    History-IsGenuine (start t) = tt
    History-IsGenuine (call {t} {c} now user passwd before order) =
        (authenticate-Admitted now user passwd c
          (IsGenuine-later api namespace t now c order (History-IsGenuine before))).1

    -- After any history of calls, whoever is authenticated has an account whose hash matches the
    -- password, which is not empty, and gets the labels of that account; and the API had that
    -- account under the user's name at most ten minutes ago.
    pub authenticate_sound :
        (t now : Time) (c : Cache) (user passwd : Text) (labels : Labels)
        → History t c
        → t ≤ℤ now
        → (authenticate (api now) matches namespace now user passwd c).0 ≡ ok (some labels)
        → (passwd ≢ [])
          × ((a : CachedAccount) × IsFresh now user a
              × (matches a.hashed_password passwd ≡ true)
              × (labels ≡ a.labels))
    authenticate_sound t now c user passwd labels history order e =
        subst (Admitted now user passwd) e
          (authenticate-Admitted now user passwd c
            (IsGenuine-later api namespace t now c order (History-IsGenuine history))).0
