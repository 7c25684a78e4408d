-- ===== src/Controllers/Routes.antt =====
-- Which events make requests for an image secret and for a build environment, once all controllers of
-- pkg/controller are added: those of its accounts, and those of its input secrets.
use image_registry_operator.Prelude.{
  ◌≡◌, ◌≢◌, refl, sym, ◌∙◌, ap, subst, true, false, inl, inr, none, List, [], ◌∷◌, Has, arith,
}
use image_registry_operator.Go.Text.{Text, Lacks, is_empty, text_eq, text_eq_refl}
use image_registry_operator.Go.Map.{lookup}
use image_registry_operator.Go.Panic.{done}
use image_registry_operator.Kube.Meta.{NamespacedName, ObjectMeta, key_of}
use image_registry_operator.Kube.Controller.{
  Kind, image_build_env, image_registry_account, image_pull_secret, image_push_secret, secret,
  EventHandler, Enqueues, IsRequested, Registers, enqueue_requests_from_map_func,
  enqueue_request_for_owner,
}
use image_registry_operator.Backrefs.Keys.{
  separator, labels, map_request, parse_value, parse_value-to_map_value,
}
use image_registry_operator.Backrefs.OwnerRefs.{Object, add_reference, reference_to}
use image_registry_operator.Backrefs.OwnerRefs.Laws.{add_reference-adds}
use image_registry_operator.V1alpha1.{ImageSecret}
use image_registry_operator.ImageSecret.Deps.{Settings}
use image_registry_operator.ImageSecret.Config.{Config, new_settings, new_settings-account_label}
use image_registry_operator.ImageSecret.Rotate.{TargetRegistry, new_account}
use image_registry_operator.Controllers.Watches.{pull_config, push_config}
use image_registry_operator.Controllers.{
  reconcile_image_secret, reconcile_image_build_env, Setup, add_to_manager, add_to_manager_funcs,
}
use image_registry_operator.Controllers.Adding.{watch_of}
use image_registry_operator.Controllers.Registration.{
  Registered, all_watches, add_to_manager-SetUp, SetUp-IsRequested,
}

-- The label of an account is read back as its CR.
account_label-request :
    (cfg : Settings) (registry : TargetRegistry) (cr : ImageSecret) (hash : Text)
    → Lacks separator cr.meta.name
    → cr.meta.name ≢ []
    → cr.meta.namespace ≢ []
    → map_request labels cfg.account_label (new_account cfg registry cr hash).meta
      ≡ key_of cr.meta ∷ []
unfolding map_request new_account lookup
account_label-request cfg registry cr hash plain named spaced =
    rw (text_eq_refl cfg.account_label)
      (parse_value-to_map_value (key_of cr.meta) plain named spaced)

-- An account has no other label.
other_label-request :
    (cfg : Settings) (registry : TargetRegistry) (cr : ImageSecret) (hash other : Text)
    → text_eq cfg.account_label other ≡ false
    → map_request labels other (new_account cfg registry cr hash).meta ≡ []
unfolding map_request new_account lookup parse_value is_empty
other_label-request cfg registry cr hash other h = rw h refl

-- The accounts of the two kinds of image secrets differ in their labels.
other_labels :
    (text_eq pull_config.account_label push_config.account_label ≡ false)
    × (text_eq push_config.account_label pull_config.account_label ≡ false)
unfolding text_eq
other_labels = (refl, refl)

module _ (g : Registered) where
  -- The watches of the accounts' labels.
  pull_watch :
      Has
        (watch_of (reconcile_image_secret image_pull_secret g.pull) (
          image_registry_account,
          enqueue_requests_from_map_func (map_request labels pull_config.account_label),
        ))
        (all_watches g)
  pull_watch = inr (inr (inr (inr (inr (inr (inr (inr (inl refl))))))))

  push_watch :
      Has
        (watch_of (reconcile_image_secret image_push_secret g.push) (
          image_registry_account,
          enqueue_requests_from_map_func (map_request labels push_config.account_label),
        ))
        (all_watches g)
  push_watch = inr (inr (inr (inr (inr (inr (inr (inr (inr (inr (inr (inr (inl refl))))))))))))

  build_env_watch :
      Has
        (watch_of reconcile_image_build_env
          (secret, enqueue_request_for_owner false image_build_env))
        (all_watches g)
  build_env_watch = inr (inr (inr (inr (inl refl))))

module _ {type_meta : Kind → Text × Text}
    {requests : EventHandler → ObjectMeta → List NamespacedName}
    (enqueues : Enqueues type_meta requests) (g : Registered) where
  -- An account requests its CR by the label of the controller that made it.
  account-IsRequested :
      (kind : Kind) (cfg : Config) (settings : Settings) (registry : TargetRegistry)
      (cr : ImageSecret) (hash : Text)
      → Lacks separator cr.meta.name
      → cr.meta.name ≢ []
      → cr.meta.namespace ≢ []
      → settings.account_label ≡ cfg.account_label
      → Has
          (watch_of (reconcile_image_secret kind settings) (
            image_registry_account,
            enqueue_requests_from_map_func (map_request labels cfg.account_label),
          ))
          (all_watches g)
      → IsRequested requests
          (all_watches g)
          (reconcile_image_secret kind settings)
          image_registry_account
          (new_account settings registry cr hash).meta
          (key_of cr.meta)
  account-IsRequested kind cfg settings registry cr hash plain named spaced same watched =
      let meta = (new_account settings registry cr hash).meta in
      let read =
        enqueues.for_map (map_request labels cfg.account_label) meta
        ∙ ap (λ l. map_request labels l meta) (sym same)
        ∙ account_label-request settings registry cr hash plain named spaced in
      (_, watched, refl, refl, subst (Has (key_of cr.meta)) (sym read) (inl refl))

  -- An input secret with the back reference requests the build environment.
  input-IsRequested :
      (from m : ObjectMeta) (to : Object)
      → type_meta image_build_env ≡ (to.api_version, to.kind)
      → add_reference from to ≡ done (m, true)
      → IsRequested requests (all_watches g) reconcile_image_build_env secret m (key_of to.meta)
  input-IsRequested from m to typed added =
      let (present, near) = add_reference-adds from to m added in
      let found = enqueues.for_owner image_build_env (reference_to to) m present typed in
      let same : record { namespace = m.namespace; name = to.meta.name } ≡ key_of to.meta =
        ground (arith, near) in
      (
        _,
        build_env_watch g,
        refl,
        refl,
        subst (λ key. Has key (requests (enqueue_request_for_owner false image_build_env) m)) same
            found,
      )

module _ {M C S K : Type 0} (setup : Setup M C S K) (reg : Registers setup.api)
    (type_meta : Kind → Text × Text) (requests : EventHandler → ObjectMeta → List NamespacedName)
    (m m' : M) (s s' : S) (enqueues : Enqueues type_meta requests)
    (added : add_to_manager (add_to_manager_funcs setup) (m, s) ≡ done (none, (m', s'))) where
  -- Once all controllers are added, an event of an account that a rotation made requests the CR by
  -- its label, from the reconciler of the CR's kind and with the settings that the environment gives;
  -- the label by which the controller of the other kind finds its CRs is not on it. The name of the
  -- CR is not empty and has no dot, its namespace is not empty, and the calls of controller-runtime do
  -- what they are documented to do.
  pub accounts_request_their_secret :
      (registry : TargetRegistry) (cr : ImageSecret) (hash : Text)
      → Lacks separator cr.meta.name
      → cr.meta.name ≢ []
      → cr.meta.namespace ≢ []
      → (pull : Settings) × (push : Settings) × (new_settings setup.env pull_config ≡ done pull)
        × (new_settings setup.env push_config ≡ done push)
        × IsRequested requests
            (reg.watches m')
            (reconcile_image_secret image_pull_secret pull)
            image_registry_account
            (new_account pull registry cr hash).meta
            (key_of cr.meta)
        × IsRequested requests
            (reg.watches m')
            (reconcile_image_secret image_push_secret push)
            image_registry_account
            (new_account push registry cr hash).meta
            (key_of cr.meta)
        × (map_request labels push_config.account_label (new_account pull registry cr hash).meta
            ≡ [])
        × (map_request labels pull_config.account_label (new_account push registry cr hash).meta
            ≡ [])
  accounts_request_their_secret registry cr hash plain named spaced =
      let (g, up) = add_to_manager-SetUp setup reg m m' s s' added in
      let pull_label = new_settings-account_label setup.env pull_config g.pull up.pull_found in
      let push_label = new_settings-account_label setup.env push_config g.push up.push_found in
      (
        g.pull,
        g.push,
        up.pull_found,
        up.push_found,
        SetUp-IsRequested setup reg requests (new_account g.pull registry cr hash).meta
            (key_of cr.meta) up
            (account-IsRequested enqueues g image_pull_secret pull_config g.pull registry cr hash
              plain named spaced pull_label (pull_watch g)),
        SetUp-IsRequested setup reg requests (new_account g.push registry cr hash).meta
            (key_of cr.meta) up
            (account-IsRequested enqueues g image_push_secret push_config g.push registry cr hash
              plain named spaced push_label (push_watch g)),
        other_label-request g.pull registry cr hash push_config.account_label
            (ap (λ l. text_eq l push_config.account_label) pull_label ∙ other_labels.0),
        other_label-request g.push registry cr hash pull_config.account_label
            (ap (λ l. text_eq l pull_config.account_label) push_label ∙ other_labels.1),
      )

  -- Once all controllers are added, an event of an input secret to which a back reference was added
  -- requests the build environment that it refers to, also where another object controls the secret.
  -- The reference has the type that the scheme knows for build environments, and the calls of
  -- controller-runtime do what they are documented to do.
  pub inputs_request_their_build_env :
      (from meta : ObjectMeta) (to : Object)
      → type_meta image_build_env ≡ (to.api_version, to.kind)
      → add_reference from to ≡ done (meta, true)
      → IsRequested requests (reg.watches m') reconcile_image_build_env secret meta (key_of to.meta)
  inputs_request_their_build_env from meta to typed referred =
      let (g, up) = add_to_manager-SetUp setup reg m m' s s' added in
      SetUp-IsRequested setup reg requests meta (key_of to.meta) up
        (input-IsRequested enqueues g from meta to typed referred)
