-- ===== src/ImageSecret/Config.antt =====
-- `NewReconciler`: the settings from the environment variables, or a panic.
use image_registry_operator.Prelude.{
  ◌≡◌, ◌/◌, ◌*◌, suc, Bool-cases, inl, inr, if◌then◌else◌, ◌++◌, arith,
}
use image_registry_operator.Prelude.Int.{pos, negsuc, sub_ℕ, ltb_ℤ, ◌≤ℤ◌, ◌+ℤ◌, +ℤ_parts}
use image_registry_operator.Go.Text.{Text, text, is_empty}
use image_registry_operator.Go.Error.{Result, ok, err, message, Result-cases}
use image_registry_operator.Go.Panic.{Panics, Panics-cases, done, panic, ◌>>=◌}
use image_registry_operator.Go.Time.{Duration, seconds}
use image_registry_operator.ImageRegistry.Names.{dns_zone}
use image_registry_operator.ImageSecret.Deps.{Settings}

abbrev pub env_default_registry_name : Text
env_default_registry_name = text "OPERATOR_DEFAULT_REGISTRY_NAME"

abbrev pub env_default_registry_namespace : Text
env_default_registry_namespace = text "OPERATOR_DEFAULT_REGISTRY_NAMESPACE"

abbrev pub env_secret_ttl : Text
env_secret_ttl = text "OPERATOR_SECRET_TTL"

abbrev pub default_account_ttl : Duration
default_account_ttl = seconds (24 * 3600)

-- `ReconcileImageSecretConfig`, of which the factory of empty CRs is left out.
pub record Config : Type 0 where
  pub secret_type : Text
  pub docker_config_key : Text
  pub account_label : Text

-- The environment variables, and what operator-sdk and the package time make of them.
pub record Environment : Type 0 where
  pub getenv : Text → Text
  pub watch_namespace_env_var : Text
  pub operator_namespace : Result Text
  pub parse_duration : Text → Result Duration

-- `d / 2`, which rounds towards zero.
abbrev pub half : Duration → Duration
half (pos n) = pos (n / 2)
half (negsuc n) = sub_ℕ 0 (suc n / 2)

module _ (env : Environment) where
  abbrev pub watch_namespace : Panics Text
  watch_namespace =
      let ns = env.getenv env.watch_namespace_env_var in
      if is_empty ns
      then panic (
          text "could not detect operator namespace to derive "
          ++ env_default_registry_namespace
          ++ text " - set it alternatively")
      else done ns

  unfoldable pub default_namespace : Panics Text
  default_namespace =
      let ns = env.getenv env_default_registry_namespace in
      if is_empty ns
      then elim env.operator_namespace [ ok found ↦ done found | err e ↦ watch_namespace ]
      else done ns

  abbrev pub bad_ttl : Text → Panics Duration
  bad_ttl reason =
      panic (text "Unsupported value in env var " ++ env_secret_ttl ++ text ": " ++ reason)

  unfoldable pub account_ttl : Panics Duration
  account_ttl =
      if is_empty (env.getenv env_secret_ttl)
      then done default_account_ttl
      else elim (env.parse_duration (env.getenv env_secret_ttl)) [
        | err e ↦ bad_ttl (message e)
        | ok ttl ↦ if ltb_ℤ ttl (pos 1) then bad_ttl (text "ttl < 1") else done ttl
      ]

  unfoldable pub new_settings : Config → Panics Settings
  new_settings cfg = do
    let given = env.getenv env_default_registry_name
    namespace ← default_namespace
    ttl ← account_ttl
    done (record {
      secret_type = cfg.secret_type;
      docker_config_key = cfg.docker_config_key;
      account_label = cfg.account_label;
      default_registry = record {
        name = if is_empty given then text "registry" else given;
        namespace = namespace;
      };
      rotation_interval = half ttl;
      account_ttl = ttl;
      dns_zone = dns_zone (env.getenv (text "OPERATOR_DNS_ZONE"));
    })

  account_ttl-pos : (ttl : Duration) → account_ttl ≡ done ttl → pos 1 ≤ℤ ttl
  unfolding account_ttl
  account_ttl-pos ttl e = elim (Bool-cases (is_empty (env.getenv env_secret_ttl))) [
    | inl p ↦ ground (arith, p, e)
    | inr p ↦ elim (Result-cases (env.parse_duration (env.getenv env_secret_ttl))) [
      | inr (x, q) ↦ absurd (ground (arith, p, q, e))
      | inl (d, q) ↦ elim (Bool-cases (ltb_ℤ d (pos 1))) [
        | inl r ↦ absurd (ground (arith, p, q, r, e))
        | inr r ↦ ground (arith, p, q, r, e)
      ]
    ]
  ]

  -- The label is that of the configuration.
  pub new_settings-account_label :
      (cfg : Config) (settings : Settings)
      → new_settings cfg ≡ done settings
      → settings.account_label ≡ cfg.account_label
  unfolding new_settings
  new_settings-account_label cfg settings e = elim (Panics-cases default_namespace) [
    | inl (x, p) ↦ absurd (ground (arith, p, e))
    | inr (ns, p) ↦ elim (Panics-cases account_ttl) [
      | inl (x, q) ↦ absurd (ground (arith, p, q, e))
      | inr (ttl, q) ↦ ground (arith, p, q, e)
    ]
  ]

  half-le : (d : Duration) → pos 1 ≤ℤ d → (pos 0 ≤ℤ half d) × (half d +ℤ half d ≤ℤ d)
  half-le (pos n) h = (omega arith, omega (arith, +ℤ_parts (pos (n / 2)) (pos (n / 2))))
  half-le (negsuc n) h = absurd (omega arith)

  -- Whatever the environment, a reconciler that starts rotates passwords at an interval that is not
  -- negative and of which two fit into the lifetime of an account, which is at least a nanosecond.
  pub rotates_before_expiry :
      (cfg : Config) (settings : Settings)
      → new_settings cfg ≡ done settings
      → (pos 1 ≤ℤ settings.account_ttl)
        × (pos 0 ≤ℤ settings.rotation_interval)
        × (settings.rotation_interval +ℤ settings.rotation_interval ≤ℤ settings.account_ttl)
  unfolding new_settings
  rotates_before_expiry cfg settings e = elim (Panics-cases default_namespace) [
    | inl (x, p) ↦ absurd (ground (arith, p, e))
    | inr (ns, p) ↦ elim (Panics-cases account_ttl) [
      | inl (x, q) ↦ absurd (ground (arith, p, q, e))
      | inr (ttl, q) ↦
          let a : settings.account_ttl ≡ ttl = ground (arith, p, q, e) in
          let i : settings.rotation_interval ≡ half ttl = ground (arith, p, q, e) in
          let positive = account_ttl-pos ttl q in
          let (low, fits) = half-le ttl positive in rw (a, i) (positive, low, fits)
    ]
  ]
