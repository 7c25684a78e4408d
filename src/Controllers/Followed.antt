-- ===== src/Controllers/Followed.antt =====
-- The objects of a registry whose tasks went through are watched: the tasks of
-- pkg/controller/imageregistry and the watches of pkg/controller together.
use image_registry_operator.Prelude.{◌≡◌, ◌≢◌, none, some, [], List}
use image_registry_operator.Go.Text.{Text, Lacks}
use image_registry_operator.Go.Panic.{done}
use image_registry_operator.Kube.Meta.{NamespacedName, ObjectMeta, key_of}
use image_registry_operator.Kube.Controller.{
  Kind, service, stateful_set, persistent_volume_claim, service_account, role, role_binding,
  EventHandler, Watch, Registers, Enqueues, IsRequested,
}
use image_registry_operator.Backrefs.Keys.{separator}
use image_registry_operator.V1alpha1.{ImageRegistry}
use image_registry_operator.ImageRegistry.Names.{pvc_name_for_cr, service_account_name_for_cr}
use image_registry_operator.ImageRegistry.Upsert.{Conditions, new_reconciler}
use image_registry_operator.ImageRegistry.Reconcile.{Deps, Readings, run_tasks, reconcile_tasks}
use image_registry_operator.Controllers.{
  Reconciler, reconcile_image_registry, Setup, add_to_manager, add_to_manager_funcs,
}
use image_registry_operator.Controllers.Children.{Owns}
use image_registry_operator.Controllers.Objects.{Objects}
use image_registry_operator.Controllers.Present.{UpsertsAll, IsPresent}
use image_registry_operator.Controllers.Synced.{synced_registry_has_its_objects}
use image_registry_operator.Controllers.Events.{children_request_their_registry}

-- An object is in the cluster under the name in the namespace of the CR, and its events request the CR.
abbrev pub IsFollowed :
    {S : Type 0}
    → Objects S
    → (EventHandler → ObjectMeta → List NamespacedName)
    → List (Watch Reconciler)
    → Reconciler
    → ImageRegistry
    → S
    → Kind
    → Text
    → Type 0
IsFollowed objects requests watches reconciler cr s k name =
    (m : ObjectMeta) × (objects s k (record { namespace = cr.meta.namespace; name = name })
      ≡ some m)
    × IsRequested requests watches reconciler k m (key_of cr.meta)

-- Once all controllers are added and the tasks of a registry went through, its service account,
-- role, role binding, service, stateful set and volume claim are in the cluster, under their names in
-- its namespace, and an event of each of them requests the registry from its reconciler. The name of
-- the registry is not empty and has no dot, its namespace is not empty, and the calls of
-- controller-runtime do what they are documented to do.
pub synced_objects_request_their_registry :
    {M C W L S K : Type 0} (setup : Setup M C W L) (reg : Registers setup.api)
    (type_meta : Kind → Text × Text) (requests : EventHandler → ObjectMeta → List NamespacedName)
    (objects : Objects S) (deps : Deps S K) (laws : UpsertsAll objects deps) (root : NamespacedName)
    (readings : Readings) (cr : ImageRegistry) (m m' : M) (w w' : W) (set set' : Conditions)
    (s s' : S)
    → Enqueues type_meta requests
    → Owns type_meta deps.certs.set_controller_reference
    → add_to_manager (add_to_manager_funcs setup) (m, w) ≡ done (none, (m', w'))
    → Lacks separator cr.meta.name
    → cr.meta.name ≢ []
    → cr.meta.namespace ≢ []
    → run_tasks (reconcile_tasks deps (new_reconciler setup.env.getenv) root readings) cr set s
      ≡ done (none, set', s')
    → let followed =
        IsFollowed objects requests
          (reg.watches m')
          (reconcile_image_registry (new_reconciler setup.env.getenv))
          cr
          s' in
      followed service_account (service_account_name_for_cr cr)
      × followed role (service_account_name_for_cr cr)
      × followed role_binding (service_account_name_for_cr cr)
      × followed service cr.meta.name
      × followed stateful_set cr.meta.name
      × followed persistent_volume_claim (pvc_name_for_cr cr)
synced_objects_request_their_registry setup reg type_meta requests objects deps laws root readings
      cr m m' w w' set set' s s' enqueues owns added plain named spaced ran =
    let r = new_reconciler setup.env.getenv in
    let (a, b, c, d, e, f) =
      synced_registry_has_its_objects objects deps laws r root readings cr set set' s s' ran in
    (
      follow service_account (service_account_name_for_cr cr) a,
      follow role (service_account_name_for_cr cr) b,
      follow role_binding (service_account_name_for_cr cr) c,
      follow service cr.meta.name d,
      follow stateful_set cr.meta.name e,
      follow persistent_volume_claim (pvc_name_for_cr cr) f,
    )
  where
    follow :
        (k : Kind) (name : Text)
        → IsPresent objects deps (new_reconciler setup.env.getenv) cr s' k name
        → IsFollowed objects requests
            (reg.watches m')
            (reconcile_image_registry (new_reconciler setup.env.getenv))
            cr
            s'
            k
            name
    follow k name (meta, there, child) = (
      meta,
      there,
      children_request_their_registry setup reg type_meta requests deps.certs deps.set_condition cr
          k meta m m' w w' enqueues owns added plain named spaced child,
    )
