-- ===== src/Controllers/Registration.antt =====
-- What `AddToManager` of pkg/controller leaves in the manager and in the cluster.
use image_registry_operator.Prelude.{
  ◌≡◌, refl, sym, ◌∙◌, ap, subst, none, List, [], ◌∷◌, ◌++◌, Has, Has-append_right, inl, inr, arith,
}
use image_registry_operator.Go.Text.{text}
use image_registry_operator.Go.Panic.{Panics-cases, done}
use image_registry_operator.Kube.Meta.{NamespacedName, ObjectMeta}
use image_registry_operator.Kube.Controller.{
  Kind, image_pull_secret, image_push_secret, EventHandler, Watch, Registers, IsRequested,
}
use image_registry_operator.ImageRegistry.Upsert.{ReconcileImageRegistry, new_reconciler}
use image_registry_operator.ImageSecret.Deps.{Settings}
use image_registry_operator.ImageSecret.Config.{new_settings}
use image_registry_operator.Controllers.Watches.{
  ca_root_watches, image_build_env_watches, image_secret_watches, image_registry_watches,
  image_registry_account_watches, pull_config, push_config,
}
use image_registry_operator.Controllers.{
  Reconciler, reconcile_ca_root_secret, reconcile_image_build_env, reconcile_image_secret,
  reconcile_image_registry, reconcile_image_registry_account, Setup, root_ca, add_image_build_env,
  add_image_pull_secret, add_image_push_secret, add_image_registry, add_image_registry_account,
  add_to_manager_funcs, add_to_manager,
}
use image_registry_operator.Controllers.Adding.{
  watches_of, add_to_manager-cons, add_to_manager-nil, join, add_controller-Adds,
  add_image_secret-Adds, add_ca_root-Adds, Renewed,
}

-- What differs from one environment to another: the root CA's name and the three sets of settings.
pub record Registered : Type 0 where
  pub root_ca_name : NamespacedName
  pub pull : Settings
  pub push : Settings
  pub registry : ReconcileImageRegistry

-- The watches of all controllers, in the order in which they are added.
abbrev pub all_watches : Registered → List (Watch Reconciler)
all_watches g =
    watches_of (reconcile_ca_root_secret g.root_ca_name) (ca_root_watches g.root_ca_name)
    ++ (watches_of reconcile_image_build_env image_build_env_watches
        ++ (watches_of (reconcile_image_secret image_pull_secret g.pull)
              (image_secret_watches image_pull_secret pull_config)
            ++ (watches_of (reconcile_image_secret image_push_secret g.push)
                  (image_secret_watches image_push_secret push_config)
                ++ (watches_of (reconcile_image_registry g.registry) image_registry_watches
                    ++ watches_of reconcile_image_registry_account
                        image_registry_account_watches))))

module _ {M C S K : Type 0} (setup : Setup M C S K) (reg : Registers setup.api) where
  -- What a manager has to which all controllers were added: the watches, with the settings that the
  -- environment gives, and the root CA was renewed.
  pub record SetUp (m m' : M) (s s' : S) (g : Registered) : Type 0 where
    pub root_ca_found : root_ca setup ≡ done g.root_ca_name
    pub renewed : Renewed setup reg g.root_ca_name s s'
    pub pull_found : new_settings setup.env pull_config ≡ done g.pull
    pub push_found : new_settings setup.env push_config ≡ done g.push
    pub registry_found : g.registry ≡ new_reconciler setup.env.getenv
    pub watched : reg.watches m' ≡ reg.watches m ++ all_watches g

  abbrev registry_watches : List (Watch Reconciler)
  registry_watches =
      watches_of (reconcile_image_registry (new_reconciler setup.env.getenv)) image_registry_watches
      ++ watches_of reconcile_image_registry_account image_registry_account_watches

  add_image_registry-Adds :
      (m m' : M) (s s' : S)
      → add_image_registry setup (m, s) ≡ done (none, (m', s'))
      → (reg.watches m'
          ≡ reg.watches m
            ++ watches_of
                (reconcile_image_registry (new_reconciler setup.env.getenv))
                image_registry_watches)
        × (s' ≡ s)
  unfolding add_image_registry
  add_image_registry-Adds m m' s s' e = elim (Panics-cases (root_ca setup)) [
    | inl (x, p) ↦ absurd (ground (arith, p, e))
    | inr (name, p) ↦
        add_controller-Adds setup reg (text "imageregistry-controller")
          (reconcile_image_registry (new_reconciler setup.env.getenv)) image_registry_watches m m' s
          s' (ground (arith, p, e))
  ]

  -- The last two functions.
  registries-Adds :
      (m m' : M) (s s' : S)
      → add_to_manager (add_image_registry setup ∷ add_image_registry_account setup ∷ []) (m, s)
        ≡ done (none, (m', s'))
      → (reg.watches m' ≡ reg.watches m ++ registry_watches) × (s' ≡ s)
  unfolding add_image_registry_account
  registries-Adds m m' s s' e =
      let ((t, u), first, f) = add_to_manager-cons _ _ (m, s) (m', s') e in
      let ((v, w), second, g) = add_to_manager-cons _ _ (t, u) (m', s') f in
      let last = add_to_manager-nil (v, w) (m', s') g in
      let (a, b) = add_image_registry-Adds m t s u first in
      let (c, d) = add_controller-Adds setup reg _ _ _ t v u w second in
      (
        ap (λ (x : M × S). reg.watches x.0) (sym last) ∙ join (reg.watches m) _ _ a c,
        sym (ap (λ (x : M × S). x.1) last) ∙ d ∙ b,
      )

  -- The functions of the image secrets, and the last two.
  secrets-Adds :
      (m m' : M) (s s' : S)
      → add_to_manager
          (add_image_pull_secret setup
            ∷ add_image_push_secret setup
            ∷ add_image_registry setup
            ∷ add_image_registry_account setup
            ∷ [])
          (m, s)
        ≡ done (none, (m', s'))
      → (pull : Settings) × (push : Settings) × (new_settings setup.env pull_config ≡ done pull)
        × (new_settings setup.env push_config ≡ done push)
        × (reg.watches m'
            ≡ reg.watches m
              ++ (watches_of
                    (reconcile_image_secret image_pull_secret pull)
                    (image_secret_watches image_pull_secret pull_config)
                  ++ (watches_of
                        (reconcile_image_secret image_push_secret push)
                        (image_secret_watches image_push_secret push_config)
                      ++ registry_watches)))
        × (s' ≡ s)
  unfolding add_image_pull_secret add_image_push_secret
  secrets-Adds m m' s s' e =
      let ((t, u), first, f) = add_to_manager-cons _ _ (m, s) (m', s') e in
      let ((v, w), second, g) = add_to_manager-cons _ _ (t, u) (m', s') f in
      let (pull, p, a, b) = add_image_secret-Adds setup reg _ _ _ m t s u first in
      let (push, q, c, d) = add_image_secret-Adds setup reg _ _ _ t v u w second in
      let (x, y) = registries-Adds v m' w s' g in
      let behind = join (reg.watches t) _ registry_watches c x in
      (pull, push, p, q, join (reg.watches m) _ _ a behind, y ∙ d ∙ b)

  -- If all controllers can be added, the root CA was renewed without an error, and
  -- the manager has exactly the watches of the six controllers behind those that it had, with the
  -- settings that the environment gives.
  pub add_to_manager-SetUp :
      (m m' : M) (s s' : S)
      → add_to_manager (add_to_manager_funcs setup) (m, s) ≡ done (none, (m', s'))
      → (g : Registered) × SetUp m m' s s' g
  unfolding add_image_build_env
  add_to_manager-SetUp m m' s s' e =
      let ((t, u), first, f) = add_to_manager-cons _ _ (m, s) (m', s') e in
      let ((v, w), second, h) = add_to_manager-cons _ _ (t, u) (m', s') f in
      let (name, found, renewed, a) = add_ca_root-Adds setup reg m t s u first in
      let (b, kept) = add_controller-Adds setup reg _ _ _ t v u w second in
      let (pull, push, p, q, c, same) = secrets-Adds v m' w s' h in
      (
        record {
          root_ca_name = name;
          pull = pull;
          push = push;
          registry = new_reconciler setup.env.getenv;
        },
        record {
          root_ca_found = found;
          renewed = subst (Renewed setup reg name s) (sym (same ∙ kept)) renewed;
          pull_found = p;
          push_found = q;
          registry_found = refl;
          watched = join (reg.watches m) _ _ a (join (reg.watches t) _ _ b c);
        },
      )

  -- A request by one of these watches is made by the manager.
  pub SetUp-IsRequested :
      {m m' : M} {s s' : S} {g : Registered} {r : Reconciler} {k : Kind}
      (requests : EventHandler → ObjectMeta → List NamespacedName) (meta : ObjectMeta)
      (key : NamespacedName)
      → SetUp m m' s s' g
      → IsRequested requests (all_watches g) r k meta key
      → IsRequested requests (reg.watches m') r k meta key
  SetUp-IsRequested {m} {g} requests meta key up (w, watched, by, on, made) = (
    w,
    subst (Has w) (sym up.watched) (Has-append_right w (reg.watches m) (all_watches g) watched),
    by,
    on,
    made,
  )
