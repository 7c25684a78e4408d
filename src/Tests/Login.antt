-- ===== src/Tests/Login.antt =====
-- A login, and a second one from the cache.
use image_registry_operator.Prelude.{
  ℕ, ◌≡◌, ◌≢◌, ◌↔◌, refl, true, if◌then◌else◌, none, Bool, some, [], ◌∷◌, arith,
}
use image_registry_operator.Prelude.Int.{◌+ℤ◌}
use image_registry_operator.Go.Text.{Text, text, text_eq, is_empty}
use image_registry_operator.Go.Map.{lookup, insert}
use image_registry_operator.Go.Error.{Error, Result, ok}
use image_registry_operator.Go.Time.{Time, seconds}
use image_registry_operator.Kube.Meta.{NamespacedName}
use image_registry_operator.Kube.Memory.{find}
use image_registry_operator.V1alpha1.{ImageRegistryAccount}
use image_registry_operator.ImageSecret.Laws.{account_key}
use image_registry_operator.Auth.{
  Labels, Cache, CachedAccount, Authenticator, new_authenticator, authenticate, account_labels,
  to_cached, find_account, fetch_account, cache_expired, add_to_cache,
}
use image_registry_operator.Auth.Freshness.{IsFresh, History, start, call, authenticate_sound}
use image_registry_operator.Auth.Completeness.{authenticate_complete}
use image_registry_operator.Auth.Plugin.{answer}
use image_registry_operator.Auth.Client.{
  Process, Options, EndsWith, main, defaults, authenticator, login, pw_env_var_name,
  client_and_plugin_agree,
}
use image_registry_operator.Tests.World.{account}

abbrev api : Time → NamespacedName → Result ImageRegistryAccount
api t k = find account_key k (account ∷ [])

abbrev matches : Text → Text → Bool
matches hash password = text_eq hash (b'$' ∷ password)

abbrev namespace : Text
namespace = text "infra"

abbrev user : Text
user = text "pull.apps.web.3"

abbrev first_login : Cache
first_login =
    (authenticate (api (seconds 5)) matches namespace (seconds 5) user (text "secret") []).1

history : History api namespace matches (seconds 5) first_login
history = call (seconds 5) user (text "secret") (start (seconds 0)) (omega arith)

logged_in :
    (authenticate
      (api (seconds 60))
      matches
      namespace
      (seconds 60)
      user
      (text "secret")
      first_login).0
    ≡ ok (some (account_labels account))
unfolding authenticate find_account fetch_account cache_expired add_to_cache to_cached lookup insert
    find text_eq is_empty ◌+ℤ◌
logged_in = refl

authenticate_sound_example :
    (text "secret" ≢ [])
    × ((a : CachedAccount) × IsFresh api namespace (seconds 60) user a
        × (matches a.hashed_password (text "secret") ≡ true)
        × (account_labels account ≡ a.labels))
authenticate_sound_example =
    authenticate_sound api namespace matches (seconds 5) (seconds 60) first_login user
      (text "secret") (account_labels account) history (omega arith) logged_in

authenticate_complete_example :
    (labels : Labels) × ((authenticate
        (api (seconds 60))
        matches
        namespace
        (seconds 60)
        user
        (text "secret")
        first_login).0
      ≡ ok (some labels))
    × (lookup (text "origin") labels ≡ some (text "cr" ∷ []))
unfolding find text_eq is_empty
authenticate_complete_example =
    authenticate_complete api namespace matches (seconds 5) (seconds 60) first_login user
      (text "secret") account (text "origin") history (omega arith) refl refl (λ u h. refl) refl

-- The command, with the password in the environment. The client is the clock at which it reads.
abbrev process : Process ℕ ℕ ℕ Time
process = record {
  parse = λ o. (record o { user = user }, true, []);
  usage = text "usage";
  lookup_env = λ name. if text_eq name pw_env_var_name then some (text "wrong") else none;
  from_file = λ kubeconfig. ok 0;
  set_user_agent = λ agent cfg. cfg;
  clients = record {
    build_scheme = ok 0;
    new_mapper = λ cfg. ok 0;
    new_client = λ cfg scheme mapper. ok (seconds 5);
  };
  get = api;
  matches = matches;
  now = seconds 5;
  marshal = λ labels. ok (text "{}");
}

abbrev options : Options
options = record { kubeconfig = []; namespace = []; user = user }

abbrev made : Authenticator Time
made = record { client = seconds 5; cache = []; namespace = [] }

authenticator_made : authenticator process [] [] ≡ ok made
unfolding authenticator new_authenticator
authenticator_made = refl

parsed : process.parse (defaults process) ≡ (options, true, [])
unfolding text_eq
parsed = refl

password_given : process.lookup_env pw_env_var_name ≡ some (text "wrong")
unfolding text_eq
password_given = refl

client_and_plugin_agree_example :
    (EndsWith 3 (main process) ↔ (
      ((answer (login process made user (text "wrong"))).labels ≡ none)
      × ((answer (login process made user (text "wrong"))).error ≡ none)))
    × (EndsWith 2 (main process)
        ↔ ((e : Error) × ((answer (login process made user (text "wrong"))).error ≡ some e)))
client_and_plugin_agree_example =
    client_and_plugin_agree process options (text "wrong") made parsed password_given
      authenticator_made
