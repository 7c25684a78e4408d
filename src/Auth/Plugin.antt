-- ===== src/Auth/Plugin.antt =====
-- docker-authn-plugin/kdauthnplugin.go: the authenticator as a plugin of cesanta/docker_auth.
use image_registry_operator.Prelude.{ℕ, Bool, true, Option, none, some, if◌then◌else◌, ◌++◌}
use image_registry_operator.Go.Text.{Text, text, is_empty}
use image_registry_operator.Go.Error.{Error, Result, ok, err, message}
use image_registry_operator.Go.Panic.{Panics, done, panic}
use image_registry_operator.Auth.{Labels, Clients, Authenticator, new_authenticator}

abbrev pub plugin_name : Text
plugin_name = text "k8s-authn"

-- A process that started with something, or ended with an exit code.
pub data Started (A : Type 0) : Type 0 where
  started : A → Started A
  exit : ℕ → Started A

-- What the plugin answers: whether the user is authenticated, the labels, `none` for nil, and the
-- error.
pub record Answer : Type 0 where
  pub authenticated : Bool
  pub labels : Option Labels
  pub error : Option Error

-- `Authenticate`, of what the authenticator returns: labels or an error.
unfoldable pub answer : Result (Option Labels) → Answer
answer (ok labels) = record { authenticated = true; labels = labels; error = none }
answer (err e) = record { authenticated = true; labels = none; error = some e }

-- What the plugin needs to start: `rest.InClusterConfig`, `clientcmd.BuildConfigFromFlags`, the
-- namespace of the service account in its file, and what `NewAuthenticator` calls.
pub record Setup (Cfg Scheme Mapper C : Type 0) : Type 0 where
  pub in_cluster : Result Cfg
  pub from_file : Text → Result Cfg
  pub read_namespace : Result Text
  pub set_user_agent : Text → Cfg → Cfg
  pub clients : Clients Cfg Scheme Mapper C

module _ {Cfg Scheme Mapper C : Type 0} (setup : Setup Cfg Scheme Mapper C) where
  -- The configuration, or the exit code of its error.
  abbrev pub config : Text → Started Cfg
  config kubeconfig =
      if is_empty kubeconfig
      then elim setup.in_cluster [ ok cfg ↦ started cfg | err e ↦ exit 2 ]
      else elim (setup.from_file kubeconfig) [ ok cfg ↦ started cfg | err e ↦ exit 3 ]

  abbrev pub namespace_or_panic : Text → Panics Text
  namespace_or_panic given =
      if is_empty given
      then elim setup.read_namespace [
        | ok namespace ↦ done namespace
        | err e ↦ panic (text "Cannot detect namespace: " ++ message e)
      ]
      else done given

  abbrev start_in : Cfg → Text → Started (Authenticator C)
  start_in cfg namespace =
      elim (new_authenticator setup.clients (setup.set_user_agent (text "Image Registry Auth") cfg)
        namespace) [ ok auth ↦ started auth | err e ↦ exit 4 ]

  -- `newK8sDockerAuthnPlugin`, of the values of KUBECONFIG and NAMESPACE.
  unfoldable pub new_plugin : Text → Text → Panics (Started (Authenticator C))
  new_plugin kubeconfig given = elim (config kubeconfig) [
    | exit code ↦ done (exit code)
    | started cfg ↦ elim (namespace_or_panic given) [
      | panic t ↦ panic t
      | done namespace ↦ done (start_in cfg namespace)
    ]
  ]
