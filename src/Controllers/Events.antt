-- ===== src/Controllers/Events.antt =====
-- Which events make requests for a registry, once all controllers of pkg/controller are added: those
-- of the objects that the tasks of pkg/controller/imageregistry write for it.
use image_registry_operator.Prelude.{
  Bool, ◌≡◌, ◌≢◌, refl, sym, none, ◌∙◌, ap, subst, inl, inr, List, [], Has, Has-append_left, arith,
}
use image_registry_operator.Go.Text.{Text, Lacks}
use image_registry_operator.Go.Map.{lookup, or_empty}
use image_registry_operator.Go.Error.{Result-cases}
use image_registry_operator.Go.Panic.{done}
use image_registry_operator.Kube.Meta.{NamespacedName, ObjectMeta, Resource, Condition, key_of}
use image_registry_operator.Kube.Controller.{
  Kind, image_registry, secret, service, stateful_set, persistent_volume_claim, service_account,
  role, role_binding, EventHandler, Watch, Enqueues, IsRequested, Registers,
  enqueue_requests_from_map_func,
}
use image_registry_operator.Backrefs.Keys.{separator, annotations, map_request, parse_value}
use image_registry_operator.V1alpha1.{ImageRegistry}
use image_registry_operator.ImageRegistry.Upsert.{Conditions, new_reconciler}
use image_registry_operator.ImageRegistry.Service.{
  ClaimSpec, modify_service, modify_claim, owner_for_cr, annotation_image_registry,
}
use image_registry_operator.ImageRegistry.StatefulSet.{
  modify_stateful_set, update_stateful_set_for_cr,
}
use image_registry_operator.ImageRegistry.Rbac.{unchanged, modify_role, modify_role_binding}
use image_registry_operator.ImageRegistry.Claim.{claim_requests_its_registry}
use image_registry_operator.ImageRegistry.Certificates.{CertDeps, own_secret}
use image_registry_operator.Controllers.Watches.{
  image_registry_watches, image_registry_account_watches, controlled_by,
}
use image_registry_operator.Controllers.{
  Reconciler, reconcile_image_registry, reconcile_image_registry_account, Setup, add_to_manager,
  add_to_manager_funcs,
}
use image_registry_operator.Controllers.Adding.{watch_of, watches_of}
use image_registry_operator.Controllers.Registration.{
  Registered, all_watches, add_to_manager-SetUp, SetUp-IsRequested,
}
use image_registry_operator.Controllers.Children.{
  IsControlled, Owns, Child, a_service, a_stateful_set, a_service_account, a_role, a_role_binding,
  a_certificate_secret, a_claim, change-modify, change-IsControlled, Agrees-IsControlled,
}

-- The watches of the registry controller are among those of all controllers.
Has-registry_watches :
    (g : Registered) (w : Watch Reconciler)
    → Has w (watches_of (reconcile_image_registry g.registry) image_registry_watches)
    → Has w (all_watches g)
Has-registry_watches g w h = inr (
    inr (
      inr (
        inr (
          inr (
            inr (
              inr (
                inr (
                  inr (
                    inr (
                      inr (
                        inr (
                          inr (
                            Has-append_left w
                              (watches_of (reconcile_image_registry g.registry)
                                image_registry_watches)
                              (watches_of reconcile_image_registry_account
                                image_registry_account_watches)
                              h)))))))))))))

module _ {type_meta : Kind → Text × Text}
    {requests : EventHandler → ObjectMeta → List NamespacedName}
    (enqueues : Enqueues type_meta requests) (g : Registered) (cr : ImageRegistry) where
  abbrev Requested : Kind → ObjectMeta → Type 0
  Requested k m =
      IsRequested requests (all_watches g) (reconcile_image_registry g.registry) k m
        (key_of cr.meta)

  -- By one of the watches for owners.
  IsControlled-Requested :
      (k : Kind) (m : ObjectMeta)
      → Has
          (watch_of (reconcile_image_registry g.registry) (k, controlled_by image_registry))
          (watches_of (reconcile_image_registry g.registry) image_registry_watches)
      → IsControlled type_meta cr.meta m
      → Requested k m
  IsControlled-Requested k m watched o =
      let found =
        enqueues.for_controller image_registry o.ref m o.present o.same_type o.is_controller in
      let same : record { namespace = m.namespace; name = o.ref.name } ≡ key_of cr.meta =
        ground (arith, o.same_name, o.same_namespace) in
      (
        watch_of (reconcile_image_registry g.registry) (k, controlled_by image_registry),
        Has-registry_watches g _ watched,
        refl,
        refl,
        subst (λ key. Has key (requests (controlled_by image_registry) m)) same found,
      )

  module _ {S K : Type 0} (deps : CertDeps S K)
      (set_condition : Condition → Conditions → Conditions × Bool)
      (owns : Owns type_meta deps.set_controller_reference) where
    Child-Requested :
        {k : Kind} {m : ObjectMeta}
        → Lacks separator cr.meta.name
        → cr.meta.name ≢ []
        → cr.meta.namespace ≢ []
        → Child deps set_condition g.registry cr k m
        → Requested k m
    unfolding map_request modify_service modify_stateful_set update_stateful_set_for_cr modify_role
        modify_role_binding own_secret
    Child-Requested plain named spaced (a_service o o' c c' meta near e a) =
        IsControlled-Requested service meta (inr (inr (inl refl))) (
          Agrees-IsControlled type_meta cr.meta meta o'.meta a (
            change-IsControlled owns cr (modify_service g.registry cr) (λ y c. refl) (λ y c. refl) o
              o' c c' near e))
    Child-Requested plain named spaced (a_stateful_set o o' c c' meta near e a) =
        IsControlled-Requested stateful_set meta (inr (inl refl)) (
          Agrees-IsControlled type_meta cr.meta meta o'.meta a (
            change-IsControlled owns cr (modify_stateful_set set_condition g.registry cr)
              (λ y c. refl) (λ y c. refl) o o' c c' near e))
    Child-Requested plain named spaced (a_service_account o o' c c' meta near e a) =
        IsControlled-Requested service_account meta (inr (inr (inr (inr (inr (inl refl)))))) (
          Agrees-IsControlled type_meta cr.meta meta o'.meta a
            (change-IsControlled owns cr unchanged (λ y c. refl) (λ y c. refl) o o' c c' near e))
    Child-Requested plain named spaced (a_role o o' c c' meta near e a) =
        IsControlled-Requested role meta (inr (inr (inr (inr (inr (inr (inl refl))))))) (
          Agrees-IsControlled type_meta cr.meta meta o'.meta a
            (change-IsControlled owns cr modify_role (λ y c. refl) (λ y c. refl) o o' c c' near e))
    Child-Requested plain named spaced (a_role_binding o o' c c' meta near e a) =
        IsControlled-Requested role_binding meta
          (inr (inr (inr (inr (inr (inr (inr (inl refl))))))))
          (Agrees-IsControlled type_meta cr.meta meta o'.meta a (
            change-IsControlled owns cr modify_role_binding (λ y c. refl) (λ y c. refl) o o' c c'
              near e))
    Child-Requested plain named spaced (a_certificate_secret o o' meta near e a) =
        elim (Result-cases (deps.set_controller_reference cr o.meta)) [
          | inr (x, p) ↦ absurd (ground (arith, p, e))
          | inl (owned, p) ↦
              let there : owned ≡ o'.meta = ground (arith, p, e) in
              IsControlled-Requested secret meta (inr (inr (inr (inl refl)))) (
                Agrees-IsControlled type_meta cr.meta meta o'.meta a
                  (subst (IsControlled type_meta cr.meta) there (owns cr o.meta owned p near)))
        ]
    Child-Requested plain named spaced (a_claim o o' c c' meta e a) =
        let (y, owned, there) =
          change-modify deps.set_controller_reference (owner_for_cr cr) (modify_claim cr) o o' c c'
            e in
        let f = map_request annotations annotation_image_registry in
        let one =
          enqueues.for_map f meta
          ∙ ap (λ l. parse_value (or_empty (lookup annotation_image_registry l))) a.same_annotations
          ∙ ap (λ (x : Resource ClaimSpec). f x.meta) (sym there)
          ∙ claim_requests_its_registry cr y c plain named spaced in
        (
          watch_of (reconcile_image_registry g.registry)
              (persistent_volume_claim, enqueue_requests_from_map_func f),
          Has-registry_watches g _ (inr (inr (inr (inr (inl refl))))),
          refl,
          refl,
          subst (Has (key_of cr.meta)) (sym one) (inl refl),
        )

-- Once all controllers are added, an event of one of these stored objects that a task wrote for a
-- registry requests that registry from its reconciler: of the service, the stateful set, the service account, the role,
-- its binding and the certificate secrets by their owner, of the volume claim by its annotation. The
-- name of the registry is not empty and has no dot, its namespace is not empty, and the calls of
-- controller-runtime do what they are documented to do.
pub children_request_their_registry :
    {M C S K T L : Type 0} (setup : Setup M C S K) (reg : Registers setup.api)
    (type_meta : Kind → Text × Text) (requests : EventHandler → ObjectMeta → List NamespacedName)
    (deps : CertDeps T L) (set_condition : Condition → Conditions → Conditions × Bool)
    (cr : ImageRegistry) (k : Kind) (meta : ObjectMeta) (m m' : M) (s s' : S)
    → Enqueues type_meta requests
    → Owns type_meta deps.set_controller_reference
    → add_to_manager (add_to_manager_funcs setup) (m, s) ≡ done (none, (m', s'))
    → Lacks separator cr.meta.name
    → cr.meta.name ≢ []
    → cr.meta.namespace ≢ []
    → Child deps set_condition (new_reconciler setup.env.getenv) cr k meta
    → IsRequested requests
        (reg.watches m')
        (reconcile_image_registry (new_reconciler setup.env.getenv))
        k
        meta
        (key_of cr.meta)
children_request_their_registry setup reg type_meta requests deps set_condition cr k meta m m' s s'
      enqueues owns added plain named spaced child =
    let (g, up) = add_to_manager-SetUp setup reg m m' s s' added in
    let own =
      Child-Requested enqueues g cr deps set_condition owns plain named spaced
        (subst (λ r. Child deps set_condition r cr k meta) (sym up.registry_found) child) in
    subst
      (λ r.
        IsRequested requests (reg.watches m') (reconcile_image_registry r) k meta (key_of cr.meta))
      up.registry_found (SetUp-IsRequested setup reg requests meta (key_of cr.meta) up own)
