-- ===== src/Controllers/Present.antt =====
-- When an object that a task of pkg/controller/imageregistry wrote is still there at the end of the
-- tasks.
use image_registry_operator.Prelude.{◌≡◌, ◌≢◌, sym, ◌∙◌, ap, Option, none, some, List, All}
use image_registry_operator.Go.Error.{ok}
use image_registry_operator.Go.Panic.{done}
use image_registry_operator.Go.Text.{Text}
use image_registry_operator.Kube.Meta.{NamespacedName, ObjectMeta, Resource}
use image_registry_operator.Kube.Controller.{
  Kind, service, stateful_set, persistent_volume_claim, service_account, role, role_binding,
}
use image_registry_operator.V1alpha1.{ImageRegistry}
use image_registry_operator.ImageRegistry.Upsert.{
  ReconcileImageRegistry, Conditions, CreateOrUpdate, Task, Modify, change, upsert,
}
use image_registry_operator.ImageRegistry.Service.{
  reconcile_service, reconcile_persistent_volume_claim,
}
use image_registry_operator.ImageRegistry.StatefulSet.{reconcile_stateful_set}
use image_registry_operator.ImageRegistry.Rbac.{reconcile_role, reconcile_role_binding}
use image_registry_operator.ImageRegistry.Reconcile.{Deps, run_tasks}
use image_registry_operator.Controllers.Children.{Agrees, Child}
use image_registry_operator.Controllers.Objects.{
  Objects, Upserts, upsert-stored, upsert-others, Leaves, run_tasks-Leaves,
}

-- The upserts of the six kinds of objects that every registry has.
pub record UpsertsAll {S K : Type 0} (objects : Objects S) (deps : Deps S K) : Type 0 where
  pub service_accounts : Upserts objects service_account deps.service_accounts
  pub roles : Upserts objects role deps.roles
  pub role_bindings : Upserts objects role_binding deps.role_bindings
  pub services : Upserts objects service deps.services
  pub stateful_sets : Upserts objects stateful_set deps.stateful_sets
  pub claims : Upserts objects persistent_volume_claim deps.claims

-- An object that the tasks wrote for the CR is stored under the name in its namespace.
abbrev pub IsPresent :
    {S K : Type 0}
    → Objects S
    → Deps S K
    → ReconcileImageRegistry
    → ImageRegistry
    → S
    → Kind
    → Text
    → Type 0
IsPresent objects deps r cr s k name =
    (m : ObjectMeta) × (objects s k (record { namespace = cr.meta.namespace; name = name })
      ≡ some m)
    × Child deps.certs deps.set_condition r cr k m

module _ {S K : Type 0} (objects : Objects S) (deps : Deps S K) (laws : UpsertsAll objects deps)
    (r : ReconcileImageRegistry) (cr : ImageRegistry) (j : Kind) where
  -- Each task leaves the objects of the other kinds.
  pub reconcile_role-Leaves :
      j ≢ role → Leaves objects cr j (reconcile_role deps.certs.set_controller_reference deps.roles)
  unfolding reconcile_role
  reconcile_role-Leaves other c c1 s s1 key e =
      upsert-others laws.roles _ _ _ _ c s c1 s1 j key e other

  pub reconcile_role_binding-Leaves :
      j ≢ role_binding
      → Leaves objects cr j
          (reconcile_role_binding deps.certs.set_controller_reference deps.role_bindings)
  unfolding reconcile_role_binding
  reconcile_role_binding-Leaves other c c1 s s1 key e =
      upsert-others laws.role_bindings _ _ _ _ c s c1 s1 j key e other

  pub reconcile_service-Leaves :
      j ≢ service
      → Leaves objects cr j (reconcile_service deps.services deps.certs.set_controller_reference r)
  unfolding reconcile_service
  reconcile_service-Leaves other c c1 s s1 key e =
      upsert-others laws.services _ _ _ _ c s c1 s1 j key e other

  pub reconcile_stateful_set-Leaves :
      j ≢ stateful_set
      → Leaves objects cr j (
          reconcile_stateful_set deps.stateful_sets deps.certs.set_controller_reference
            deps.set_condition r)
  unfolding reconcile_stateful_set
  reconcile_stateful_set-Leaves other c c1 s s1 key e =
      upsert-others laws.stateful_sets _ _ _ _ c s c1 s1 j key e other

  pub reconcile_persistent_volume_claim-Leaves :
      j ≢ persistent_volume_claim
      → Leaves objects cr j
          (reconcile_persistent_volume_claim deps.claims deps.certs.set_controller_reference)
  unfolding reconcile_persistent_volume_claim
  reconcile_persistent_volume_claim-Leaves other c c1 s s1 key e =
      upsert-others laws.claims _ _ _ _ c s c1 s1 j key e other

-- What an upsert wrote is there at the end, if the tasks behind it leave the objects of its kind.
pub upsert-IsPresent :
    {S K A : Type 0} (objects : Objects S) (deps : Deps S K) (r : ReconcileImageRegistry)
    (cr : ImageRegistry) (k : Kind) (create_or_update : CreateOrUpdate S A)
    (owner : Option ImageRegistry) (o : Resource A) (modify : Modify A) (tasks : List (Task S))
    (c c1 c' : Conditions) (s s1 s' : S)
    → Upserts objects k create_or_update
    → o.meta.namespace ≡ cr.meta.namespace
    → All (Leaves objects cr k) tasks
    → ((x y : Resource A) (d : Conditions) (m : ObjectMeta)
        → x.meta.namespace ≡ cr.meta.namespace
        → change deps.certs.set_controller_reference owner modify x c ≡ ok (y, d)
        → Agrees m y.meta
        → Child deps.certs deps.set_condition r cr k m)
    → upsert create_or_update deps.certs.set_controller_reference owner o modify c s
      ≡ done (none, c1, s1)
    → run_tasks tasks cr c1 s1 ≡ done (none, c', s')
    → IsPresent objects deps r cr s' k o.meta.name
upsert-IsPresent objects deps r cr k create_or_update owner o modify tasks c c1 c' s s1 s' law home
      leaves child e rest =
    let (x, y, d, m, near, made, there, agrees) =
      upsert-stored law deps.certs.set_controller_reference owner o modify c s c1 s1 e in
    let key : NamespacedName = record { namespace = cr.meta.namespace; name = o.meta.name } in
    (
      m,
      run_tasks-Leaves objects cr k tasks c1 c' s1 s' key leaves rest
          ∙ ap (λ ns. objects s1 k (record { namespace = ns; name = o.meta.name })) (sym home)
          ∙ there,
      child x y d m (near ∙ home) made agrees,
    )
