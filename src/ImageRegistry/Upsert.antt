-- ===== src/ImageRegistry/Upsert.antt =====
-- pkg/controller/imageregistry/imageregistry_reconcile.go, `upsert` and what a reconciler is made of.
use image_registry_operator.Prelude.{Option, none, some, ◌++◌, if◌then◌else◌}
use image_registry_operator.Go.Text.{Text, text, is_empty}
use image_registry_operator.Go.Map.{Map}
use image_registry_operator.Go.Error.{Error, Result, ok, wrap, ◌>>=◌}
use image_registry_operator.Go.Panic.{Panics, done}
use image_registry_operator.Kube.Meta.{ObjectMeta, Condition, Resource}
use image_registry_operator.V1alpha1.{ImageRegistry}
use image_registry_operator.ImageRegistry.Names.{dns_zone, selector_labels_for_cr}

-- The settings of a `ReconcileImageRegistry`.
pub record ReconcileImageRegistry : Type 0 where
  pub dns_zone : Text
  pub image_auth : Text
  pub image_nginx : Text
  pub image_registry : Text

abbrev or_default : Text → Text → Text
or_default default value = if is_empty value then default else value

-- `newReconciler`, with `os.Getenv`.
unfoldable pub new_reconciler : (Text → Text) → ReconcileImageRegistry
new_reconciler getenv = record {
  dns_zone = dns_zone (getenv (text "OPERATOR_DNS_ZONE"));
  image_auth =
      or_default (text "mgoltzsche/image-registry-operator:latest-auth")
        (getenv (text "OPERATOR_IMAGE_AUTH"));
  image_nginx =
      or_default (text "mgoltzsche/image-registry-operator:latest-nginx")
        (getenv (text "OPERATOR_IMAGE_NGINX"));
  image_registry = or_default (text "registry:2") (getenv (text "OPERATOR_IMAGE_REGISTRY"));
}

-- The conditions in the status of the CR at hand.
abbrev pub Conditions : Type 0
Conditions = Map Condition

-- What an upsert leaves: the object, the error, the conditions of the CR and the cluster.
pub record Upserted (S A : Type 0) : Type 0 where
  pub object : Resource A
  pub error : Option Error
  pub conditions : Conditions
  pub cluster : S

-- `CreateOrUpdate` of controller-runtime on a new object and a function that changes the object
-- found or made, and may set conditions on the way.
abbrev pub CreateOrUpdate : Type 0 → Type 0 → Type 0
CreateOrUpdate S A =
    Resource A
    → (Resource A → Conditions → Result (Resource A × Conditions))
    → Conditions
    → S
    → Upserted S A

-- `SetControllerReference` with an ImageRegistry.
abbrev pub SetControllerReference : Type 0
SetControllerReference = ImageRegistry → ObjectMeta → Result ObjectMeta

-- A reconcile task: the error, the conditions and the cluster.
abbrev pub Task : Type 0 → Type 0
Task S = ImageRegistry → Conditions → S → Panics (Option Error × Conditions × S)

-- The caller's part of the change.
abbrev pub Modify : Type 0 → Type 0
Modify A = Resource A → Conditions → Resource A × Conditions

module _ {A : Type 0} where
  -- The owner's labels and the controller reference, if there is an owner.
  unfoldable pub set_owner :
      SetControllerReference → Option ImageRegistry → Resource A → Result (Resource A)
  set_owner set_controller_reference none o = ok o
  set_owner set_controller_reference (some owner) o = do
    meta ← set_controller_reference owner (record o.meta { labels = selector_labels_for_cr owner })
    ok (record o { meta = meta })

  -- The function that `upsert` hands to `CreateOrUpdate`.
  unfoldable pub change :
      SetControllerReference
      → Option ImageRegistry
      → Modify A
      → Resource A
      → Conditions
      → Result (Resource A × Conditions)
  change set_controller_reference owner modify o conditions = do
    owned ← set_owner set_controller_reference owner o
    ok (modify owned conditions)

  abbrev pub upsert_error : {S : Type 0} → Upserted S A → Option Error
  upsert_error u = elim u.error [
    | none ↦ none
    | some e ↦ some (wrap (text "upsert " ++ u.object.kind ++ text " " ++ u.object.meta.name) e)
  ]

  unfoldable pub upsert :
      {S : Type 0}
      → CreateOrUpdate S A
      → SetControllerReference
      → Option ImageRegistry
      → Resource A
      → Modify A
      → Conditions
      → S
      → Panics (Option Error × Conditions × S)
  upsert create_or_update set_controller_reference owner o modify conditions s =
      let u = create_or_update o (change set_controller_reference owner modify) conditions s in
      done (upsert_error u, u.conditions, u.cluster)
