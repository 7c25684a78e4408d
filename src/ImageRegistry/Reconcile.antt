-- ===== src/ImageRegistry/Reconcile.antt =====
-- pkg/controller/imageregistry/imageregistry_reconcile.go, `Reconcile`: the tasks in order, and what
-- came of them in the status of the CR.
use image_registry_operator.Prelude.{
  Bool, true, false, not, ◌||◌, Option, none, some, List, [], ◌∷◌, if◌then◌else◌,
}
use image_registry_operator.Prelude.Int.{int_eq}
use image_registry_operator.Go.Text.{text_eq}
use image_registry_operator.Go.Error.{Error, ok, err, error_of, is_not_found, message}
use image_registry_operator.Go.Panic.{Panics, done, ◌>>=◌}
use image_registry_operator.Go.Time.{Time}
use image_registry_operator.Kube.Meta.{NamespacedName, Condition}
use image_registry_operator.Kube.Pod.{ServiceSpec}
use image_registry_operator.Kube.Api.{Api}
use image_registry_operator.V1alpha1.{
  ImageRegistry, ImageRegistryStatus, condition_ready, condition_synced, reason_failed_sync,
}
use image_registry_operator.ImageRegistry.Names.{registry_hostname, tls_secret_name_for_cr}
use image_registry_operator.ImageRegistry.Upsert.{
  ReconcileImageRegistry, Conditions, CreateOrUpdate, Task,
}
use image_registry_operator.ImageRegistry.StatefulSet.{StatefulSet, reconcile_stateful_set}
use image_registry_operator.ImageRegistry.Service.{
  ClaimSpec, reconcile_service, reconcile_persistent_volume_claim,
}
use image_registry_operator.ImageRegistry.Rbac.{
  PolicyRule, Binding, reconcile_service_account, reconcile_role, reconcile_role_binding,
}
use image_registry_operator.ImageRegistry.Certificates.{
  CertDeps, reconcile_token_cert, reconcile_tls_cert,
}

-- `Conditions.SetCondition` of operator-sdk returns whether it changed something.
abbrev pub SetCondition : Type 0
SetCondition = Condition → Conditions → Conditions × Bool

pub record Deps (S K : Type 0) : Type 0 where
  pub certs : CertDeps S K
  pub registry_api : Api S ImageRegistry
  pub service_accounts : CreateOrUpdate S (Unit {0})
  pub roles : CreateOrUpdate S (List PolicyRule)
  pub role_bindings : CreateOrUpdate S Binding
  pub services : CreateOrUpdate S ServiceSpec
  pub stateful_sets : CreateOrUpdate S StatefulSet
  pub claims : CreateOrUpdate S ClaimSpec
  pub set_condition : SetCondition

-- The clock when the token CA and the TLS certificate are renewed.
pub record Readings : Type 0 where
  pub token : Time
  pub tls : Time

-- `reconcileTasks`, with the root CA's secret at `root`.
unfoldable pub reconcile_tasks :
    {S K : Type 0} → Deps S K → ReconcileImageRegistry → NamespacedName → Readings → List (Task S)
reconcile_tasks deps r root readings =
    let set_ref = deps.certs.set_controller_reference in
    reconcile_token_cert deps.certs readings.token
    ∷ reconcile_tls_cert deps.certs r root readings.tls
    ∷ reconcile_service_account set_ref deps.service_accounts
    ∷ reconcile_role set_ref deps.roles
    ∷ reconcile_role_binding set_ref deps.role_bindings
    ∷ reconcile_service deps.services set_ref r
    ∷ reconcile_stateful_set deps.stateful_sets set_ref deps.set_condition r
    ∷ reconcile_persistent_volume_claim deps.claims set_ref
    ∷ []

module _ {S : Type 0} where
  -- The loop over the tasks ends at the first error.
  unfoldable pub run_tasks :
      List (Task S) → ImageRegistry → Conditions → S → Panics (Option Error × Conditions × S)
  run_tasks [] cr conditions s = done (none, conditions, s)
  run_tasks (task ∷ tasks) cr conditions s = do
    (e, conditions', s') ← task cr conditions s
    elim e [ none ↦ run_tasks tasks cr conditions' s' | some e ↦ done (some e, conditions', s') ]

-- The condition of the error of the tasks.
abbrev pub sync_condition : Option Error → Condition
sync_condition none = record { type = condition_synced; is_true = true; reason = []; message = [] }
sync_condition (some e) = record {
  type = condition_synced;
  is_true = false;
  reason = [];
  message = message e;
}

abbrev pub not_ready : Condition
not_ready = record {
  type = condition_ready;
  is_true = false;
  reason = reason_failed_sync;
  message = [];
}

module _ (set_condition : SetCondition) where
  -- The conditions after the tasks: what the tasks set, and whether they went through.
  unfoldable pub set_sync_conditions : Option Error → Conditions → Conditions
  set_sync_conditions none conditions = (set_condition (sync_condition none) conditions).0
  set_sync_conditions (some e) conditions =
      (set_condition not_ready (set_condition (sync_condition (some e)) conditions).0).0

  -- The loop that puts the new conditions into those of the CR, in the order in which `range` has
  -- them, and whether that changed one.
  unfoldable pub merge_conditions : Conditions → Conditions × Bool → Conditions × Bool
  merge_conditions [] old = old
  merge_conditions ((type, c) ∷ new) (old, changed) =
      let (old', changed') = set_condition c old in merge_conditions new (old', changed' || changed)

-- The status that is saved.
unfoldable pub new_status :
    ReconcileImageRegistry → ImageRegistry → Conditions → ImageRegistryStatus
new_status r cr conditions = record {
  observed_generation = cr.meta.generation;
  conditions = conditions;
  hostname = registry_hostname cr r.dns_zone;
  tls_secret_name = tls_secret_name_for_cr cr;
}

-- Whether the status differs, in a condition or in another field.
unfoldable pub status_changed : ReconcileImageRegistry → ImageRegistry → Bool → Bool
status_changed r cr changed =
    changed
    || not (int_eq cr.status.observed_generation cr.meta.generation)
    || not (text_eq cr.status.hostname (registry_hostname cr r.dns_zone))
    || not (text_eq cr.status.tls_secret_name (tls_secret_name_for_cr cr))

-- The error of the tasks comes first.
abbrev pub first_error : Option Error → Option Error → Option Error
first_error none e = e
first_error (some e) other = some e

module _ {S K : Type 0} (deps : Deps S K) (r : ReconcileImageRegistry) where
  unfoldable pub update_status : ImageRegistry → Option Error → Conditions → S → Option Error × S
  update_status cr e new s =
      let (conditions, changed) =
        merge_conditions deps.set_condition (set_sync_conditions deps.set_condition e new)
          (cr.status.conditions, false) in
      if status_changed r cr changed
      then (let (result, s') =
            deps.registry_api.update_status (record cr { status = new_status r cr conditions }) s in
          (first_error e (error_of result), s'))
      else (e, s)

  -- The tasks see the CR, with empty conditions for them to set.
  unfoldable pub reconcile_found : List (Task S) → ImageRegistry → S → Panics (Option Error × S)
  reconcile_found tasks cr s = do
    (e, conditions, s') ←
        run_tasks tasks (record cr { status = record cr.status { conditions = [] } }) [] s
    done (update_status cr e conditions s')

  unfoldable pub reconcile :
      NamespacedName → Readings → NamespacedName → S → Panics (Option Error × S)
  reconcile root readings request s = elim (deps.registry_api.get request s) [
    | err e ↦ if is_not_found e then done (none, s) else done (some e, s)
    | ok cr ↦ reconcile_found (reconcile_tasks deps r root readings) cr s
  ]
