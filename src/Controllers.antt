-- ===== src/Controllers.antt =====
-- pkg/controller: the `Add` function of each controller and `AddToManager`. `Watches` has what they
-- watch. The state is the manager's and the cluster's; a function that adds a controller returns its
-- error and the state.
pub mod Watches
pub mod Adding
pub mod Registration
pub mod Children
pub mod Events
pub mod Routes
pub mod Objects
pub mod Present
pub mod Synced
pub mod Followed
pub mod Order
use image_registry_operator.Prelude.{Option, none, some, List, [], ◌∷◌}
use image_registry_operator.Go.Text.{Text, text}
use image_registry_operator.Go.Error.{Error, Result, ok, err}
use image_registry_operator.Go.Panic.{Panics, done, ◌>>=◌}
use image_registry_operator.Go.Time.{Time}
use image_registry_operator.Kube.Meta.{NamespacedName}
use image_registry_operator.Kube.Controller.{
  Kind, image_pull_secret, image_push_secret, EventHandler, ManagerApi,
}
use image_registry_operator.Certs.KeyPair.{Crypto}
use image_registry_operator.Certs.Manager.{CreateOrUpdate, renew_root_ca_cert_secret}
use image_registry_operator.Certs.Root.{root_ca_secret_name}
use image_registry_operator.ImageRegistry.Upsert.{ReconcileImageRegistry, new_reconciler}
use image_registry_operator.ImageSecret.Deps.{Settings}
use image_registry_operator.ImageSecret.Config.{Config, Environment, new_settings}
use image_registry_operator.Controllers.Watches.{
  Source, ca_root_watches, image_build_env_watches, image_secret_watches, image_registry_watches,
  image_registry_account_watches, pull_config, push_config,
}

-- The values that implement `reconcile.Reconciler`. That of the image secrets has the type of its CRs.
pub data Reconciler : Type 0 where
  reconcile_ca_root_secret : NamespacedName → Reconciler
  reconcile_image_build_env : Reconciler
  reconcile_image_secret : Kind → Settings → Reconciler
  reconcile_image_registry : ReconcileImageRegistry → Reconciler
  reconcile_image_registry_account : Reconciler

-- What the `Add` functions use: the environment, the manager, the client that `client.New` makes for
-- the root CA, with its `CreateOrUpdate`, and the clock when the root CA is renewed.
pub record Setup (M C S K : Type 0) : Type 0 where
  pub env : Environment
  pub api : ManagerApi M C Reconciler
  pub crypto : Crypto K
  pub new_client : Result (CreateOrUpdate crypto S)
  pub now : Time

-- A function of `AddToManagerFuncs`.
abbrev pub AddFunc : Type 0 → Type 0
AddFunc W = W → Panics (Option Error × W)

module _ {M C S K : Type 0} (setup : Setup M C S K) where
  -- Calls of `Watch`, each behind the test of the error of the one before.
  unfoldable pub watch_all : C → List Source → M → Option Error × M
  watch_all c [] m = (none, m)
  watch_all c ((k, h) ∷ sources) m =
      let (e, m') = setup.api.watch c k h m in
      elim e [ some x ↦ (some x, m') | none ↦ watch_all c sources m' ]

  unfoldable pub add_controller : Text → Reconciler → List Source → AddFunc (M × S)
  add_controller name r sources (m, s) =
      let (made, m') = setup.api.new_controller name r m in
      elim made [
        | err e ↦ done (some e, (m', s))
        | ok c ↦ (let (e, t) = watch_all c sources m' in done (e, (t, s)))
      ]

  abbrev pub root_ca : Panics NamespacedName
  root_ca =
      root_ca_secret_name setup.env.operator_namespace
        (setup.env.getenv setup.env.watch_namespace_env_var)

  -- `caroot.Add`, behind the creation of its client.
  unfoldable pub add_ca_root_with : CreateOrUpdate setup.crypto S → AddFunc (M × S)
  add_ca_root_with create_or_update (m, s) = do
    name ← root_ca
    ((cert, e), s') ← renew_root_ca_cert_secret setup.crypto create_or_update name setup.now s
    elim e [
      | some x ↦ done (some x, (m, s'))
      | none ↦
          add_controller (text "caroot-controller") (reconcile_ca_root_secret name)
            (ca_root_watches name) (m, s')
    ]

  unfoldable pub add_ca_root : AddFunc (M × S)
  add_ca_root w = elim setup.new_client [
    | err e ↦ done (some e, w)
    | ok create_or_update ↦ add_ca_root_with create_or_update w
  ]

  unfoldable pub add_image_build_env : AddFunc (M × S)
  add_image_build_env =
      add_controller (text "imagebuildenv-controller") reconcile_image_build_env
        image_build_env_watches

  abbrev pub add_image_secret : Text → Kind → Config → AddFunc (M × S)
  add_image_secret name cr_type cfg w = do
    settings ← new_settings setup.env cfg
    add_controller name (reconcile_image_secret cr_type settings) (image_secret_watches cr_type cfg)
        w

  unfoldable pub add_image_pull_secret : AddFunc (M × S)
  add_image_pull_secret =
      add_image_secret (text "imagepullsecret-controller") image_pull_secret pull_config

  unfoldable pub add_image_push_secret : AddFunc (M × S)
  add_image_push_secret =
      add_image_secret (text "imagepushsecret-controller") image_push_secret push_config

  -- `newReconciler` looks the name of the root CA up, too.
  unfoldable pub add_image_registry : AddFunc (M × S)
  add_image_registry w = do
    name ← root_ca
    add_controller (text "imageregistry-controller")
        (reconcile_image_registry (new_reconciler setup.env.getenv)) image_registry_watches w

  unfoldable pub add_image_registry_account : AddFunc (M × S)
  add_image_registry_account =
      add_controller (text "imageregistryaccount-controller") reconcile_image_registry_account
        image_registry_account_watches

  -- `AddToManagerFuncs`, in the order in which Go initialises the files of the package.
  abbrev pub add_to_manager_funcs : List (AddFunc (M × S))
  add_to_manager_funcs =
      add_ca_root ∷ add_image_build_env ∷ add_image_pull_secret ∷ add_image_push_secret
      ∷ add_image_registry ∷ add_image_registry_account ∷ []

-- `AddToManager`
unfoldable pub add_to_manager : {W : Type 0} → List (AddFunc W) → AddFunc W
add_to_manager [] w = done (none, w)
add_to_manager (f ∷ fs) w = do
  (e, w') ← f w
  elim e [ some x ↦ done (some x, w') | none ↦ add_to_manager fs w' ]
