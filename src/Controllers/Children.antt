-- ===== src/Controllers/Children.antt =====
-- The objects that the tasks of pkg/controller/imageregistry write for a registry, and their owner.
use image_registry_operator.Prelude.{
  Bool, ◌≡◌, sym, ◌∙◌, subst, true, inl, inr, Option, some, List, Has, arith,
}
use image_registry_operator.Go.Text.{Text}
use image_registry_operator.Go.Error.{Result-cases, ok}
use image_registry_operator.Kube.Meta.{ObjectMeta, OwnerReference, Resource, Secret, Condition}
use image_registry_operator.Kube.Pod.{ServiceSpec}
use image_registry_operator.Kube.Controller.{
  Kind, image_registry, secret, service, stateful_set, persistent_volume_claim, service_account,
  role, role_binding,
}
use image_registry_operator.V1alpha1.{ImageRegistry}
use image_registry_operator.ImageRegistry.Names.{selector_labels_for_cr}
use image_registry_operator.ImageRegistry.Upsert.{
  ReconcileImageRegistry, Conditions, SetControllerReference, Modify, set_owner, change,
}
use image_registry_operator.ImageRegistry.Service.{
  ClaimSpec, modify_service, modify_claim, owner_for_cr,
}
use image_registry_operator.ImageRegistry.StatefulSet.{StatefulSet, modify_stateful_set}
use image_registry_operator.ImageRegistry.Rbac.{
  PolicyRule, Binding, unchanged, modify_role, modify_role_binding,
}
use image_registry_operator.ImageRegistry.Certificates.{CertDeps, own_secret}

-- The object has the CR as its controller, and stands in its namespace.
pub record IsControlled (type_meta : Kind → Text × Text) (cr m : ObjectMeta) : Type 0 where
  pub ref : OwnerReference
  pub present : Has ref m.owner_references
  pub same_type : type_meta image_registry ≡ (ref.api_version, ref.kind)
  pub is_controller : ref.controller ≡ true
  pub same_name : ref.name ≡ cr.name
  pub same_namespace : m.namespace ≡ cr.namespace

-- `SetControllerReference` without an error, on an object in the namespace of the owner.
abbrev pub Owns : (Kind → Text × Text) → SetControllerReference → Type 0
Owns type_meta set_controller_reference =
    (cr : ImageRegistry) (m m' : ObjectMeta)
    → set_controller_reference cr m ≡ ok m'
    → m.namespace ≡ cr.meta.namespace
    → IsControlled type_meta cr.meta m'

-- Stored metadata agree with those that a client wrote, but for what the server sets.
pub record Agrees (m written : ObjectMeta) : Type 0 where
  pub same_name : m.name ≡ written.name
  pub same_namespace : m.namespace ≡ written.namespace
  pub same_labels : m.labels ≡ written.labels
  pub same_annotations : m.annotations ≡ written.annotations
  pub same_owners : m.owner_references ≡ written.owner_references

-- A stored object of the kind that a task for the CR wrote: what `CreateOrUpdate` found under the
-- task's key or made, behind the change of the task.
pub data Child {S K : Type 0} (deps : CertDeps S K)
    (set_condition : Condition → Conditions → Conditions × Bool) (r : ReconcileImageRegistry)
    (cr : ImageRegistry) : Kind → ObjectMeta → Type 0 where
  a_service :
      (o o' : Resource ServiceSpec) (c c' : Conditions) (m : ObjectMeta)
      → o.meta.namespace ≡ cr.meta.namespace
      → change deps.set_controller_reference (some cr) (modify_service r cr) o c ≡ ok (o', c')
      → Agrees m o'.meta
      → Child deps set_condition r cr service m
  a_stateful_set :
      (o o' : Resource StatefulSet) (c c' : Conditions) (m : ObjectMeta)
      → o.meta.namespace ≡ cr.meta.namespace
      → change deps.set_controller_reference (some cr) (modify_stateful_set set_condition r cr) o c
        ≡ ok (o', c')
      → Agrees m o'.meta
      → Child deps set_condition r cr stateful_set m
  a_service_account :
      (o o' : Resource (Unit {0})) (c c' : Conditions) (m : ObjectMeta)
      → o.meta.namespace ≡ cr.meta.namespace
      → change deps.set_controller_reference (some cr) unchanged o c ≡ ok (o', c')
      → Agrees m o'.meta
      → Child deps set_condition r cr service_account m
  a_role :
      (o o' : Resource (List PolicyRule)) (c c' : Conditions) (m : ObjectMeta)
      → o.meta.namespace ≡ cr.meta.namespace
      → change deps.set_controller_reference (some cr) modify_role o c ≡ ok (o', c')
      → Agrees m o'.meta
      → Child deps set_condition r cr role m
  a_role_binding :
      (o o' : Resource Binding) (c c' : Conditions) (m : ObjectMeta)
      → o.meta.namespace ≡ cr.meta.namespace
      → change deps.set_controller_reference (some cr) modify_role_binding o c ≡ ok (o', c')
      → Agrees m o'.meta
      → Child deps set_condition r cr role_binding m
  a_certificate_secret :
      (o o' : Secret) (m : ObjectMeta)
      → o.meta.namespace ≡ cr.meta.namespace
      → own_secret deps cr o ≡ ok o'
      → Agrees m o'.meta
      → Child deps set_condition r cr secret m
  a_claim :
      (o o' : Resource ClaimSpec) (c c' : Conditions) (m : ObjectMeta)
      → change deps.set_controller_reference (owner_for_cr cr) (modify_claim cr) o c ≡ ok (o', c')
      → Agrees m o'.meta
      → Child deps set_condition r cr persistent_volume_claim m

-- What a client wrote as controlled by the CR is stored so.
pub Agrees-IsControlled :
    (type_meta : Kind → Text × Text) (cr m written : ObjectMeta)
    → Agrees m written
    → IsControlled type_meta cr written
    → IsControlled type_meta cr m
Agrees-IsControlled type_meta cr m written a o = record {
  ref = o.ref;
  present = subst (Has o.ref) (sym a.same_owners) o.present;
  same_type = o.same_type;
  is_controller = o.is_controller;
  same_name = o.same_name;
  same_namespace = a.same_namespace ∙ o.same_namespace;
}

module _ {type_meta : Kind → Text × Text} {set_controller_reference : SetControllerReference}
    (owns : Owns type_meta set_controller_reference) {A : Type 0} where
  pub set_owner-IsControlled :
      (cr : ImageRegistry) (o o' : Resource A)
      → o.meta.namespace ≡ cr.meta.namespace
      → set_owner set_controller_reference (some cr) o ≡ ok o'
      → IsControlled type_meta cr.meta o'.meta
  unfolding set_owner
  set_owner-IsControlled cr o o' near e =
      elim (Result-cases
        (set_controller_reference cr (record o.meta { labels = selector_labels_for_cr cr }))) [
          | inr (x, p) ↦ absurd (ground (arith, p, e))
          | inl (m, p) ↦
              let there : m ≡ o'.meta = ground (arith, p, e) in
              subst (IsControlled type_meta cr.meta) there (owns cr _ m p near)
        ]

-- A successful change ends with the caller's part of it.
pub change-modify :
    {A : Type 0} (set_controller_reference : SetControllerReference) (owner : Option ImageRegistry)
    (modify : Modify A) (o o' : Resource A) (c c' : Conditions)
    → change set_controller_reference owner modify o c ≡ ok (o', c')
    → (y : Resource A) × (set_owner set_controller_reference owner o ≡ ok y) × ((modify y c).0 ≡ o')
unfolding change
change-modify set_controller_reference owner modify o o' c c' e =
    elim (Result-cases (set_owner set_controller_reference owner o)) [
      | inr (x, p) ↦ absurd (ground (arith, p, e))
      | inl (y, p) ↦ (y, p, ground (arith, p, e))
    ]

module _ {type_meta : Kind → Text × Text} {set_controller_reference : SetControllerReference}
    (owns : Owns type_meta set_controller_reference) {A : Type 0} (cr : ImageRegistry)
    (modify : Modify A)
    (keeps_refs : (y : Resource A) (c : Conditions)
      → (modify y c).0.meta.owner_references ≡ y.meta.owner_references)
    (keeps_namespace : (y : Resource A) (c : Conditions)
      → (modify y c).0.meta.namespace ≡ y.meta.namespace) where
  modify-IsControlled :
      (y : Resource A) (c : Conditions)
      → IsControlled type_meta cr.meta y.meta
      → IsControlled type_meta cr.meta (modify y c).0.meta
  modify-IsControlled y c o = record {
    ref = o.ref;
    present = subst (Has o.ref) (sym (keeps_refs y c)) o.present;
    same_type = o.same_type;
    is_controller = o.is_controller;
    same_name = o.same_name;
    same_namespace = keeps_namespace y c ∙ o.same_namespace;
  }

  -- A change with an owner whose caller leaves the references and the namespace alone.
  pub change-IsControlled :
      (o o' : Resource A) (c c' : Conditions)
      → o.meta.namespace ≡ cr.meta.namespace
      → change set_controller_reference (some cr) modify o c ≡ ok (o', c')
      → IsControlled type_meta cr.meta o'.meta
  change-IsControlled o o' c c' near e =
      let (y, owned, same) = change-modify set_controller_reference (some cr) modify o o' c c' e in
      subst (λ x. IsControlled type_meta cr.meta x.meta) same
        (modify-IsControlled y c (set_owner-IsControlled owns cr o y near owned))
