-- ===== src/Tests/Objects.antt =====
-- A cluster that keeps the metadata of its objects by kind and name, and the tasks of a registry in it.
use image_registry_operator.Prelude.{
  ◌≡◌, ◌≢◌, refl, ◌∙◌, ap, inl, inr, ℕ, Option, none, some, [], if◌then◌else◌, arith,
}
use mathlib.Core.Logic.{ite, if_pos, if_neg}
use image_registry_operator.Go.Text.{Text, text, text_eq_refl}
use image_registry_operator.Go.Error.{Error, Result, Result-cases, failure, not_found, ok, err}
use image_registry_operator.Go.Panic.{Panics, done, panic}
use image_registry_operator.Kube.Meta.{NamespacedName, ObjectMeta, Resource, key_of}
use image_registry_operator.Kube.Memory.{key_eq}
use image_registry_operator.Kube.Controller.{
  Kind, service, stateful_set, persistent_volume_claim, service_account, role, role_binding, secret,
}
use image_registry_operator.V1alpha1.{ImageRegistry}
use image_registry_operator.ImageRegistry.Upsert.{
  ReconcileImageRegistry, new_reconciler, Conditions, CreateOrUpdate, Upserted, upsert, change,
  set_owner,
}
use image_registry_operator.ImageRegistry.Names.{pvc_name_for_cr, service_account_name_for_cr}
use image_registry_operator.ImageRegistry.Service.{
  reconcile_service, reconcile_persistent_volume_claim,
}
use image_registry_operator.ImageRegistry.StatefulSet.{reconcile_stateful_set}
use image_registry_operator.ImageRegistry.Certificates.{reconcile_token_cert, reconcile_tls_cert}
use image_registry_operator.ImageRegistry.Rbac.{
  reconcile_service_account, reconcile_role, reconcile_role_binding,
}
use image_registry_operator.ImageRegistry.Reconcile.{Deps, run_tasks, reconcile_tasks}
use image_registry_operator.Controllers.Children.{Agrees}
use image_registry_operator.Controllers.Objects.{Objects, Upserts}
use image_registry_operator.Controllers.Present.{UpsertsAll}
use image_registry_operator.Controllers.{reconcile_image_registry}
use image_registry_operator.Controllers.Registration.{all_watches}
use image_registry_operator.Controllers.Followed.{IsFollowed, synced_objects_request_their_registry}
use image_registry_operator.Tests.Certificates.{foreign}
use image_registry_operator.Tests.Managers.{setup, registers, registered, all_added}
use image_registry_operator.Tests.Events.{type_meta, requests, enqueues, own, owns, named, in_infra}
use image_registry_operator.Tests.Crypto.{crypto}
use image_registry_operator.Tests.Conditions.{set_condition}
use image_registry_operator.Tests.Cluster.{registry, root, readings}

Kind-discrete : Discrete Kind
Kind-discrete = hlevel

abbrev Store : Type 0
Store = Kind → NamespacedName → Option ObjectMeta

abbrev objects : Objects Store
objects s = s

abbrev put : Kind → ObjectMeta → NamespacedName → Store → Store
put k m at s j key = ite (Kind-discrete j k) (if key_eq at key then some m else s j key) (s j key)

-- An upsert that always starts from the new object.
abbrev put_result :
    {A : Type 0}
    → Kind
    → Resource A
    → Conditions
    → Store
    → Result (Resource A × Conditions)
    → Upserted Store A
put_result k o c s (ok (y, d)) = record {
  object = y;
  error = none;
  conditions = d;
  cluster = put k y.meta (key_of o.meta) s;
}
put_result k o c s (err e) = record { object = o; error = some e; conditions = c; cluster = s }

abbrev upsert_new : {A : Type 0} → Kind → CreateOrUpdate Store A
upsert_new k o f c s = put_result k o c s (f o c)

put-there :
    (k : Kind) (m : ObjectMeta) (at : NamespacedName) (s : Store) → put k m at s k at ≡ some m
put-there k m at s =
    if_pos (Kind-discrete k k) refl (if key_eq at at then some m else s k at) (s k at)
    ∙ ground (arith, text_eq_refl at.namespace, text_eq_refl at.name)

put-others :
    (k j : Kind) (m : ObjectMeta) (at key : NamespacedName) (s : Store)
    → j ≢ k
    → put k m at s j key ≡ s j key
put-others k j m at key s other = if_neg (Kind-discrete j k) other _ _

Agrees-refl : (m : ObjectMeta) → Agrees m m
Agrees-refl m = record {
  same_name = refl;
  same_namespace = refl;
  same_labels = refl;
  same_annotations = refl;
  same_owners = refl;
}

module _ {A : Type 0} (k : Kind) (o : Resource A)
    (f : Resource A → Conditions → Result (Resource A × Conditions)) (c : Conditions)
    (s : Store) where
  stored :
      (upsert_new k o f c s).error ≡ none
      → (x y : Resource A) × (d : Conditions) × (m : ObjectMeta) × (x.meta.namespace
          ≡ o.meta.namespace)
        × (f x c ≡ ok (y, d))
        × ((upsert_new k o f c s).cluster k (key_of o.meta) ≡ some m)
        × Agrees m y.meta
  stored e = elim (Result-cases (f o c)) [
    | inr (x, p) ↦ absurd (ground (arith, p, e))
    | inl ((y, d), p) ↦ (
      o,
      y,
      d,
      y.meta,
      refl,
      p,
      ap (λ r. (put_result k o c s r).cluster k (key_of o.meta)) p
          ∙ put-there k y.meta (key_of o.meta) s,
      Agrees-refl y.meta,
    )
  ]

  others :
      (j : Kind) (key : NamespacedName) → j ≢ k → (upsert_new k o f c s).cluster j key ≡ s j key
  others j key other = elim (Result-cases (f o c)) [
    | inr (x, p) ↦ ap (λ r. (put_result k o c s r).cluster j key) p
    | inl ((y, d), p) ↦
        ap (λ r. (put_result k o c s r).cluster j key) p
        ∙ put-others k j y.meta (key_of o.meta) key s other
  ]

upserts : {A : Type 0} (k : Kind) → Upserts objects k (upsert_new {A = A} k)
upserts k = record { stored = stored k; others = others k }

abbrev deps : Deps Store ℕ
deps = record {
  certs = record {
    crypto = crypto;
    certificates = upsert_new secret;
    secrets = λ new f s. done (none, some (failure (text "forbidden")), s);
    get_secret = λ k s. err (not_found (text "secret"));
    set_controller_reference = own;
  };
  registry_api = record {
    get = λ k s. err (not_found (text "registry"));
    create = λ cr s. (ok cr, s);
    update = λ cr s. (ok cr, s);
    update_status = λ cr s. (ok cr, s);
    delete = λ cr s. (none, s);
  };
  service_accounts = upsert_new service_account;
  roles = upsert_new role;
  role_bindings = upsert_new role_binding;
  services = upsert_new service;
  stateful_sets = upsert_new stateful_set;
  claims = upsert_new persistent_volume_claim;
  set_condition = set_condition;
}

laws : UpsertsAll objects deps
laws = record {
  service_accounts = upserts service_account;
  roles = upserts role;
  role_bindings = upserts role_binding;
  services = upserts service;
  stateful_sets = upserts stateful_set;
  claims = upserts persistent_volume_claim;
}

-- The registry has certificates of its own.
abbrev given : ImageRegistry
given = record registry {
  spec = record registry.spec {
    tls = record { issuer_ref = none; secret_name = some (text "tls") };
  };
}

abbrev empty : Store
empty k key = none

abbrev left_by : Panics (Option Error × Conditions × Store) → Conditions × Store
left_by (done (e, set, s)) = (set, s)
left_by (panic t) = ([], empty)

abbrev reconciler : ReconcileImageRegistry
reconciler = new_reconciler setup.env.getenv

abbrev left : Conditions × Store
left = left_by (run_tasks (reconcile_tasks deps reconciler root readings) given [] empty)

went_through :
    run_tasks (reconcile_tasks deps reconciler root readings) given [] empty
    ≡ done (none, left.0, left.1)
unfolding run_tasks reconcile_tasks reconcile_token_cert reconcile_tls_cert
    reconcile_service_account reconcile_role reconcile_role_binding reconcile_service
    reconcile_stateful_set reconcile_persistent_volume_claim upsert change set_owner
went_through = refl

abbrev Followed : Kind → Text → Type 0
Followed =
    IsFollowed objects requests (all_watches registered) (reconcile_image_registry reconciler) given
      left.1

synced_objects_request_their_registry_example :
    Followed service_account (service_account_name_for_cr given)
    × Followed role (service_account_name_for_cr given)
    × Followed role_binding (service_account_name_for_cr given)
    × Followed service given.meta.name
    × Followed stateful_set given.meta.name
    × Followed persistent_volume_claim (pvc_name_for_cr given)
synced_objects_request_their_registry_example =
    synced_objects_request_their_registry setup registers type_meta requests objects deps laws root
      readings given [] (all_watches registered) foreign foreign [] left.0 empty left.1 enqueues
      owns all_added (omega arith) named in_infra went_through
