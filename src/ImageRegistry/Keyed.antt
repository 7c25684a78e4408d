-- ===== src/ImageRegistry/Keyed.antt =====
-- The tasks of a registry keep each condition under its type
-- (pkg/controller/imageregistry), and what the whole of `Reconcile` leaves.
use image_registry_operator.Prelude.{◌≡◌, ◌≢◌, ◌⊎◌, subst, inl, inr, Option, Option-cases, [], All}
use image_registry_operator.Go.Error.{Error, ok, err, error_of}
use image_registry_operator.Go.Panic.{Panics-cases, done}
use image_registry_operator.Go.Text.{Text}
use image_registry_operator.Go.Time.{Time}
use image_registry_operator.Kube.Meta.{NamespacedName}
use image_registry_operator.Certs.Manager
use image_registry_operator.Certs.Root.{key_pair}
use image_registry_operator.V1alpha1.{ImageRegistry, ImageRegistryStatus}
use image_registry_operator.ImageRegistry.Upsert.{ReconcileImageRegistry, Conditions}
use image_registry_operator.ImageRegistry.Certificates.{
  key_for, renew_secret, renew_tls_cert, reconcile_token_cert, reconcile_tls_cert,
}
use image_registry_operator.ImageRegistry.Rbac.{
  reconcile_service_account, reconcile_role, reconcile_role_binding, modify_role,
  modify_role_binding,
}
use image_registry_operator.ImageRegistry.Service.{
  reconcile_service, reconcile_persistent_volume_claim, modify_service, modify_claim,
}
use image_registry_operator.ImageRegistry.StatefulSet.{reconcile_stateful_set, modify_stateful_set}
use image_registry_operator.ImageRegistry.Reconcile.{
  Deps, Readings, run_tasks, reconcile_tasks, reconcile, first_error,
}
use image_registry_operator.ImageRegistry.Reports.{Reports, status_is_reported}
use image_registry_operator.ImageRegistry.Status.{IsKeyed, ConditionLaws}
use image_registry_operator.ImageRegistry.Passes.{
  Passes, set_of, Keeps, upsert-Keeps, run_tasks-Keeps,
}

-- What the tasks call passes the conditions on.
pub record PassesAll {S K : Type 0} (deps : Deps S K) : Type 0 where
  pub certificates : Passes deps.certs.certificates
  pub service_accounts : Passes deps.service_accounts
  pub roles : Passes deps.roles
  pub role_bindings : Passes deps.role_bindings
  pub services : Passes deps.services
  pub stateful_sets : Passes deps.stateful_sets
  pub claims : Passes deps.claims

module _ {S K : Type 0} (deps : Deps S K) (laws : ConditionLaws deps.set_condition)
    (passes : PassesAll deps) (r : ReconcileImageRegistry) where
  renew_secret-Keeps :
      (cr : ImageRegistry) (name : Text) (request : Manager.Request deps.certs.crypto) (now : Time)
      (conditions : Conditions) (s : S)
      → IsKeyed conditions
      → IsKeyed (set_of (renew_secret deps.certs cr name request now conditions s))
  renew_secret-Keeps cr name request now conditions s keyed =
      elim (Panics-cases (
        Manager.renew_cert_secret deps.certs.crypto deps.certs.secrets (key_for cr name) request now
          s)) [ inl (t, p) ↦ rw p tt | inr (c, p) ↦ rw p keyed ]

  token_cert-Keeps : (now : Time) → Keeps (reconcile_token_cert deps.certs now)
  unfolding reconcile_token_cert
  token_cert-Keeps now cr conditions s keyed = elim (Option-cases cr.spec.auth.ca.issuer_ref) [
    | inr (issuer, p) ↦ rw p (
        upsert-Keeps deps.certs.certificates passes.certificates _ _ _ _ conditions s (λ y k. k)
          keyed)
    | inl p ↦ elim (Option-cases cr.spec.auth.ca.secret_name) [
      | inr (given, q) ↦ rw (p, q) keyed
      | inl q ↦ rw (p, q) (renew_secret-Keeps cr _ _ now conditions s keyed)
    ]
  ]

  renew_tls_cert-Keeps :
      (root : NamespacedName) (now : Time) → Keeps (renew_tls_cert deps.certs r root now)
  renew_tls_cert-Keeps root now cr conditions s keyed =
      elim (Panics-cases (key_pair deps.certs.crypto deps.certs.get_secret root s)) [
        | inl (t, p) ↦ rw p tt
        | inr (err e, p) ↦ rw p keyed
        | inr (ok ca, p) ↦ rw p (renew_secret-Keeps cr _ _ now conditions s keyed)
      ]

  tls_cert-Keeps :
      (root : NamespacedName) (now : Time) → Keeps (reconcile_tls_cert deps.certs r root now)
  unfolding reconcile_tls_cert
  tls_cert-Keeps root now cr conditions s keyed = elim (Option-cases cr.spec.tls.issuer_ref) [
    | inr (issuer, p) ↦ rw p (
        upsert-Keeps deps.certs.certificates passes.certificates _ _ _ _ conditions s (λ y k. k)
          keyed)
    | inl p ↦ elim (Option-cases cr.spec.tls.secret_name) [
      | inr (given, q) ↦ rw (p, q) keyed
      | inl q ↦ rw (p, q) (renew_tls_cert-Keeps root now _ conditions s keyed)
    ]
  ]

  tasks-Keeps :
      (root : NamespacedName) (readings : Readings)
      → All Keeps (reconcile_tasks deps r root readings)
  unfolding reconcile_tasks reconcile_service_account reconcile_role reconcile_role_binding
      reconcile_service reconcile_stateful_set reconcile_persistent_volume_claim modify_role
      modify_role_binding modify_service modify_stateful_set modify_claim
  tasks-Keeps root readings = (
    token_cert-Keeps readings.token,
    (
      tls_cert-Keeps root readings.tls,
      (
        λ cr c s. upsert-Keeps deps.service_accounts passes.service_accounts _ _ _ _ c s λ y k. k,
        (
          λ cr c s. upsert-Keeps deps.roles passes.roles _ _ _ _ c s λ y k. k,
          (
            λ cr c s. upsert-Keeps deps.role_bindings passes.role_bindings _ _ _ _ c s λ y k. k,
            (
              λ cr c s. upsert-Keeps deps.services passes.services _ _ _ _ c s λ y k. k,
              (
                λ cr c s.
                    upsert-Keeps deps.stateful_sets passes.stateful_sets _ _ _ _ c s
                      λ y k. laws.keyed _ c k,
                (λ cr c s. upsert-Keeps deps.claims passes.claims _ _ _ _ c s λ y k. k, tt),
              ),
            ),
          ),
        ),
      ),
    ),
  )

  tasks-IsKeyed :
      (root : NamespacedName) (readings : Readings) (cr : ImageRegistry) (e : Option Error)
      (set : Conditions) (s s' : S)
      → run_tasks (reconcile_tasks deps r root readings) cr [] s ≡ done (e, set, s')
      → IsKeyed set
  tasks-IsKeyed root readings cr e set s s' ran =
      subst (λ m. IsKeyed (set_of m)) ran
        (run_tasks-Keeps (reconcile_tasks deps r root readings) cr [] s (tasks-Keeps root readings)
          tt)

  -- A reconciliation of a registry that exists, and whose tasks do not panic, either finds a status
  -- that reports the outcome of the tasks and writes no status, or saves another one that does: synced
  -- exactly if the tasks went through, not ready if they did not, and with the host name and the
  -- secret of the registry. Its error is that of the tasks, or else that of the status update.
  -- `SetCondition` is as documented, and `CreateOrUpdate` sets no conditions of its own.
  pub reconcile-Reports :
      (root request : NamespacedName) (readings : Readings) (cr : ImageRegistry) (e : Option Error)
      (set : Conditions) (s s' : S)
      → deps.registry_api.get request s ≡ ok cr
      → run_tasks
          (reconcile_tasks deps r root readings)
          (record cr { status = record cr.status { conditions = [] } })
          []
          s
        ≡ done (e, set, s')
      → (Reports cr r e set cr.status × (reconcile deps r root readings request s ≡ done (e, s')))
        ⊎ ((status : ImageRegistryStatus) × Reports cr r e set status
            × (status ≢ cr.status)
            × (reconcile deps r root readings request s ≡ (
                let w = deps.registry_api.update_status (record cr { status = status }) s' in
                done (first_error e (error_of w.0), w.1))))
  unfolding reconcile
  reconcile-Reports root request readings cr e set s s' got ran =
      rw (reconcile, got)
        (status_is_reported deps laws r (reconcile_tasks deps r root readings) cr e set s s' ran
          (tasks-IsKeyed root readings _ e set s s' ran))
