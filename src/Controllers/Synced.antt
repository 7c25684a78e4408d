-- ===== src/Controllers/Synced.antt =====
-- A registry whose tasks went through has all its objects (`reconcileTasks` of
-- pkg/controller/imageregistry/imageregistry_reconcile.go).
use image_registry_operator.Prelude.{◌≡◌, ◌≢◌, refl, none, List, [], ◌∷◌, All}
use image_registry_operator.Go.Panic.{done}
use image_registry_operator.Kube.Meta.{NamespacedName}
use image_registry_operator.Kube.Controller.{
  Kind, service, stateful_set, persistent_volume_claim, service_account, role, role_binding,
}
use image_registry_operator.V1alpha1.{ImageRegistry}
use image_registry_operator.ImageRegistry.Names.{pvc_name_for_cr, service_account_name_for_cr}
use image_registry_operator.ImageRegistry.Upsert.{ReconcileImageRegistry, Conditions, Task}
use image_registry_operator.ImageRegistry.Service.{
  reconcile_service, reconcile_persistent_volume_claim,
}
use image_registry_operator.ImageRegistry.StatefulSet.{reconcile_stateful_set}
use image_registry_operator.ImageRegistry.Rbac.{
  reconcile_service_account, reconcile_role, reconcile_role_binding,
}
use image_registry_operator.ImageRegistry.Reconcile.{Deps, Readings, run_tasks, reconcile_tasks}
use image_registry_operator.Controllers.Children.{
  a_service, a_stateful_set, a_service_account, a_role, a_role_binding, a_claim,
}
use image_registry_operator.Controllers.Objects.{Objects, Leaves, run_tasks-cons}
use image_registry_operator.Controllers.Present.{
  UpsertsAll, IsPresent, upsert-IsPresent, reconcile_role-Leaves, reconcile_role_binding-Leaves,
  reconcile_service-Leaves, reconcile_stateful_set-Leaves, reconcile_persistent_volume_claim-Leaves,
}

module _ {S K : Type 0} (objects : Objects S) (deps : Deps S K) (laws : UpsertsAll objects deps)
    (r : ReconcileImageRegistry) where
  abbrev workload : List (Task S)
  workload =
      reconcile_service deps.services deps.certs.set_controller_reference r
      ∷ reconcile_stateful_set deps.stateful_sets deps.certs.set_controller_reference
          deps.set_condition r
      ∷ reconcile_persistent_volume_claim deps.claims deps.certs.set_controller_reference
      ∷ []

  -- The tasks of the workload leave all kinds but their own.
  workload-Leaves :
      (cr : ImageRegistry) (j : Kind)
      → j ≢ service
      → j ≢ stateful_set
      → j ≢ persistent_volume_claim
      → All (Leaves objects cr j) workload
  workload-Leaves cr j h1 h2 h3 = (
    reconcile_service-Leaves objects deps laws r cr j h1,
    (
      reconcile_stateful_set-Leaves objects deps laws r cr j h2,
      (reconcile_persistent_volume_claim-Leaves objects deps laws r cr j h3, tt),
    ),
  )

  workload-IsPresent :
      (cr : ImageRegistry) (set set' : Conditions) (s s' : S)
      → run_tasks workload cr set s ≡ done (none, set', s')
      → IsPresent objects deps r cr s' service cr.meta.name
        × IsPresent objects deps r cr s' stateful_set cr.meta.name
        × IsPresent objects deps r cr s' persistent_volume_claim (pvc_name_for_cr cr)
  unfolding reconcile_service reconcile_stateful_set reconcile_persistent_volume_claim
  workload-IsPresent cr set set' s s' e =
      let (c1, s1, e1, f1) = run_tasks-cons objects cr _ _ set set' s s' e in
      let (c2, s2, e2, f2) = run_tasks-cons objects cr _ _ c1 set' s1 s' f1 in
      let (c3, s3, e3, f3) = run_tasks-cons objects cr _ _ c2 set' s2 s' f2 in
      let set_leaves = reconcile_stateful_set-Leaves objects deps laws r cr in
      let claim_leaves = reconcile_persistent_volume_claim-Leaves objects deps laws r cr in
      (
        upsert-IsPresent objects deps r cr service _ _ _ _ _ set c1 set' s s1 s' laws.services refl
            (set_leaves service (λ q. cc), (claim_leaves service (λ q. cc), tt))
            (λ x y d m near made a. a_service x y set d m near made a) e1 f1,
        upsert-IsPresent objects deps r cr stateful_set _ _ _ _ _ c1 c2 set' s1 s2 s'
            laws.stateful_sets refl (claim_leaves stateful_set (λ q. cc), tt)
            (λ x y d m near made a. a_stateful_set x y c1 d m near made a) e2 f2,
        upsert-IsPresent objects deps r cr persistent_volume_claim _ _ _ _ _ c2 c3 set' s2 s3 s'
            laws.claims refl tt (λ x y d m near made a. a_claim x y c2 d m made a) e3 f3,
      )

  abbrev rbac : List (Task S)
  rbac =
      reconcile_service_account deps.certs.set_controller_reference deps.service_accounts
      ∷ reconcile_role deps.certs.set_controller_reference deps.roles
      ∷ reconcile_role_binding deps.certs.set_controller_reference deps.role_bindings
      ∷ workload

  rbac-IsPresent :
      (cr : ImageRegistry) (set set' : Conditions) (s s' : S)
      → run_tasks rbac cr set s ≡ done (none, set', s')
      → IsPresent objects deps r cr s' service_account (service_account_name_for_cr cr)
        × IsPresent objects deps r cr s' role (service_account_name_for_cr cr)
        × IsPresent objects deps r cr s' role_binding (service_account_name_for_cr cr)
        × IsPresent objects deps r cr s' service cr.meta.name
        × IsPresent objects deps r cr s' stateful_set cr.meta.name
        × IsPresent objects deps r cr s' persistent_volume_claim (pvc_name_for_cr cr)
  unfolding reconcile_service_account reconcile_role reconcile_role_binding
  rbac-IsPresent cr set set' s s' e =
      let (c1, s1, e1, f1) = run_tasks-cons objects cr _ _ set set' s s' e in
      let (c2, s2, e2, f2) = run_tasks-cons objects cr _ _ c1 set' s1 s' f1 in
      let (c3, s3, e3, f3) = run_tasks-cons objects cr _ _ c2 set' s2 s' f2 in
      let role_leaves = reconcile_role-Leaves objects deps laws r cr in
      let binding_leaves = reconcile_role_binding-Leaves objects deps laws r cr in
      let behind = workload-IsPresent cr c3 set' s3 s' f3 in
      (
        upsert-IsPresent objects deps r cr service_account _ _ _ _ _ set c1 set' s s1 s'
            laws.service_accounts refl
            (
              role_leaves service_account (λ q. cc),
              (
                binding_leaves service_account (λ q. cc),
                workload-Leaves cr service_account (λ q. cc) (λ q. cc) (λ q. cc),
              ),
            )
            (λ x y d m near made a. a_service_account x y set d m near made a) e1 f1,
        upsert-IsPresent objects deps r cr role _ _ _ _ _ c1 c2 set' s1 s2 s' laws.roles refl
            (binding_leaves role (λ q. cc), workload-Leaves cr role (λ q. cc) (λ q. cc) (λ q. cc))
            (λ x y d m near made a. a_role x y c1 d m near made a) e2 f2,
        upsert-IsPresent objects deps r cr role_binding _ _ _ _ _ c2 c3 set' s2 s3 s'
            laws.role_bindings refl (workload-Leaves cr role_binding (λ q. cc) (λ q. cc) (λ q. cc))
            (λ x y d m near made a. a_role_binding x y c2 d m near made a) e3 f3,
        behind.0,
        behind.1,
        behind.2,
      )

  -- Once the tasks of a registry went through, its service account, role, role binding, service,
  -- stateful set and volume claim are in the cluster, under their names in its namespace and with the
  -- metadata that the tasks wrote: no task undoes what another did. `CreateOrUpdate` does what it is documented to
  -- do.
  pub synced_registry_has_its_objects :
      (root : NamespacedName) (readings : Readings) (cr : ImageRegistry) (set set' : Conditions)
      (s s' : S)
      → run_tasks (reconcile_tasks deps r root readings) cr set s ≡ done (none, set', s')
      → IsPresent objects deps r cr s' service_account (service_account_name_for_cr cr)
        × IsPresent objects deps r cr s' role (service_account_name_for_cr cr)
        × IsPresent objects deps r cr s' role_binding (service_account_name_for_cr cr)
        × IsPresent objects deps r cr s' service cr.meta.name
        × IsPresent objects deps r cr s' stateful_set cr.meta.name
        × IsPresent objects deps r cr s' persistent_volume_claim (pvc_name_for_cr cr)
  unfolding reconcile_tasks
  synced_registry_has_its_objects root readings cr set set' s s' e =
      let (c1, s1, e1, f1) = run_tasks-cons objects cr _ _ set set' s s' e in
      let (c2, s2, e2, f2) = run_tasks-cons objects cr _ _ c1 set' s1 s' f1 in
      rbac-IsPresent cr c2 set' s2 s' f2
