-- ===== src/Auth.antt =====
-- pkg/auth/auth.go: the authenticator and its cache of accounts.
pub mod Genuine
pub mod Freshness
pub mod Completeness
pub mod Plugin
pub mod Client
use image_registry_operator.Prelude.{
  ℕ, ◌*◌, ◌≡◌, Bool, true, false, not, ◌&&◌, Option, none, some, List, [], ◌∷◌, if◌then◌else◌,
  select,
}
use image_registry_operator.Prelude.Int.{ℤ, pos, ◌+ℤ◌}
use image_registry_operator.Go.Text.{Text, text, is_empty}
use image_registry_operator.Go.Map.{Map, lookup, insert}
use image_registry_operator.Go.Error.{Error, Result, ok, err, is_not_found, ◌>>=◌}
use image_registry_operator.Go.Time.{Time, Duration, after, add_time, seconds}
use image_registry_operator.Kube.Meta.{NamespacedName}
use image_registry_operator.V1alpha1.{ImageRegistryAccount}

abbrev pub Labels : Type 0
Labels = Map (List Text)

pub record CachedAccount : Type 0 where
  pub hashed_password : Text
  pub labels : Labels
  pub last_seen : Time

abbrev pub cache_ttl : Duration
cache_ttl = seconds 600

unfoldable pub cache_expired : Time → CachedAccount → Bool
cache_expired now a = after now (add_time a.last_seen cache_ttl)

abbrev pub Cache : Type 0
Cache = Map CachedAccount

-- Drops the expired entries and adds one. `now` is the clock of the expiry tests.
unfoldable pub add_to_cache : Time → Text → CachedAccount → Cache → Cache
unfolding cache_expired
add_to_cache now username account cache =
    insert username account (select (λ e. not (cache_expired now e.1)) cache)

-- The labels of the account's spec, and its origin and name on top.
unfoldable pub account_labels : ImageRegistryAccount → Labels
account_labels acc =
    insert (text "account") (acc.meta.name ∷ [])
      (insert (text "origin") (text "cr" ∷ []) acc.spec.labels)

unfoldable pub to_cached : Time → ImageRegistryAccount → CachedAccount
to_cached now acc = record {
  hashed_password = acc.spec.password;
  labels = account_labels acc;
  last_seen = now;
}

-- `get` reads an account from the API; the clock stands still during a call.
module _ (get : NamespacedName → Result ImageRegistryAccount) (namespace : Text) (now : Time) where
  unfoldable pub fetch_account : Text → Cache → Result (Option CachedAccount) × Cache
  fetch_account username cache = elim (get (record { namespace = namespace; name = username })) [
    | err e ↦ (if is_not_found e then ok none else err e, cache)
    | ok acc ↦ (ok (some (to_cached now acc)), add_to_cache now username (to_cached now acc) cache)
  ]

  unfoldable pub find_account : Text → Cache → Result (Option CachedAccount) × Cache
  find_account username cache = elim (lookup username cache) [
    | none ↦ fetch_account username cache
    | some account ↦
        if cache_expired now account
        then fetch_account username cache
        else (ok (some account), cache)
  ]

abbrev pub labels_if :
    (Text → Text → Bool) → Text → Result (Option CachedAccount) → Result (Option Labels)
labels_if matches passwd (err e) = err e
labels_if matches passwd (ok none) = ok none
labels_if matches passwd (ok (some account)) =
    if matches account.hashed_password passwd then ok (some account.labels) else ok none

-- `matches` is bcrypt's comparison of a hash and a password.
module _ (get : NamespacedName → Result ImageRegistryAccount) (matches : Text → Text → Bool)
    (namespace : Text) (now : Time) where
  -- nil labels, `ok none`, stand for invalid credentials.
  unfoldable pub authenticate : Text → Text → Cache → Result (Option Labels) × Cache
  authenticate user passwd cache =
      if not (is_empty user) && not (is_empty passwd)
      then (let (found, cache') = find_account get namespace now user cache in
          (labels_if matches passwd found, cache'))
      else (ok none, cache)

-- `SchemeBuilder.Build`, `apiutil.NewDynamicRESTMapper` and `client.New`.
pub record Clients (Cfg Scheme Mapper C : Type 0) : Type 0 where
  pub build_scheme : Result Scheme
  pub new_mapper : Cfg → Result Mapper
  pub new_client : Cfg → Scheme → Mapper → Result C

-- An `Authenticator` less its lock and its log.
pub record Authenticator (C : Type 0) : Type 0 where
  pub client : C
  pub cache : Cache
  pub namespace : Text

-- `NewAuthenticator`.
unfoldable pub new_authenticator :
    {Cfg Scheme Mapper C : Type 0}
    → Clients Cfg Scheme Mapper C
    → Cfg
    → Text
    → Result (Authenticator C)
new_authenticator clients cfg namespace = do
  scheme ← clients.build_scheme
  mapper ← clients.new_mapper cfg
  reader ← clients.new_client cfg scheme mapper
  ok (record { client = reader; cache = []; namespace = namespace })
