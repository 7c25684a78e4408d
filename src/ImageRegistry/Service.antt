-- ===== src/ImageRegistry/Service.antt =====
-- pkg/controller/imageregistry/imageregistry_reconcile_svc.go, the service and the volume claim of a
-- registry.
use image_registry_operator.Prelude.{ℕ, Option, none, some, List, [], ◌∷◌, if◌then◌else◌}
use image_registry_operator.Go.Text.{Text, text}
use image_registry_operator.Go.Map.{insert}
use image_registry_operator.Kube.Meta.{Resource, new_resource, key_of}
use image_registry_operator.Kube.Pod.{ServiceSpec, new_service}
use image_registry_operator.Merge.{add_service_port}
use image_registry_operator.Backrefs.Keys.{to_map_value}
use image_registry_operator.V1alpha1.{ImageRegistry}
use image_registry_operator.ImageRegistry.Names.{
  registry_hostname, selector_labels_for_cr, pvc_name_for_cr,
}
use image_registry_operator.ImageRegistry.Upsert.{
  ReconcileImageRegistry, CreateOrUpdate, SetControllerReference, Task, Modify, upsert,
}
use image_registry_operator.ImageRegistry.Pod.{internal_port_nginx, protocol_tcp}

abbrev pub annotation_external_dns_hostname : Text
annotation_external_dns_hostname = text "external-dns.alpha.kubernetes.io/hostname"

abbrev pub annotation_image_registry : Text
annotation_image_registry = text "registry.mgoltzsche.github.com/imageregistry"

abbrev pub public_port_nginx : ℕ
public_port_nginx = 443

abbrev pub public_port_name : Text
public_port_name = text "https"

unfoldable pub modify_service : ReconcileImageRegistry → ImageRegistry → Modify ServiceSpec
modify_service r cr o conditions = (
  record o {
    meta = record o.meta {
      annotations =
          insert annotation_external_dns_hostname (registry_hostname cr r.dns_zone)
            o.meta.annotations;
    };
    body = record o.body {
      selector = selector_labels_for_cr cr;
      type = text "LoadBalancer";
      ports = add_service_port o.body.ports (record {
        name = public_port_name;
        port = public_port_nginx;
        target_port = internal_port_nginx;
        protocol = protocol_tcp;
      });
    };
  },
  conditions,
)

unfoldable pub reconcile_service :
    {S : Type 0}
    → CreateOrUpdate S ServiceSpec
    → SetControllerReference
    → ReconcileImageRegistry
    → Task S
reconcile_service create_or_update set_controller_reference r cr =
    upsert create_or_update set_controller_reference (some cr)
      (new_resource cr.meta.namespace cr.meta.name new_service) (modify_service r cr)

-- corev1.PersistentVolumeClaimSpec.
pub record ClaimSpec : Type 0 where
  pub storage_class_name : Option Text
  pub access_modes : List Text
  pub resources : Text

abbrev new_claim : ClaimSpec
new_claim = record { storage_class_name = none; access_modes = []; resources = [] }

abbrev pub access_modes_for_cr : ImageRegistry → List Text
access_modes_for_cr cr = elim cr.spec.persistent_volume_claim.access_modes [
  | [] ↦ text "ReadWriteMany" ∷ []
  | mode ∷ modes ↦ mode ∷ modes
]

-- The claim is owned, and deleted with the CR, only if the CR asks for it.
abbrev pub owner_for_cr : ImageRegistry → Option ImageRegistry
owner_for_cr cr = if cr.spec.persistent_volume_claim.delete_claim then some cr else none

abbrev disown : ImageRegistry → Resource ClaimSpec → Resource ClaimSpec
disown cr o = record o {
  meta = record o.meta { labels = selector_labels_for_cr cr; owner_references = [] };
}

abbrev storage_class : ImageRegistry → Resource ClaimSpec → Option Text
storage_class cr o = elim cr.spec.persistent_volume_claim.storage_class_name [
  | none ↦ o.body.storage_class_name
  | some name ↦ some name
]

abbrev fill_claim : ImageRegistry → Resource ClaimSpec → Resource ClaimSpec
fill_claim cr o = record o {
  meta = record o.meta {
    annotations =
        insert annotation_image_registry (to_map_value (key_of cr.meta)) o.meta.annotations;
  };
  body = record {
    storage_class_name = storage_class cr o;
    access_modes = access_modes_for_cr cr;
    resources = cr.spec.persistent_volume_claim.resources;
  };
}

unfoldable pub modify_claim : ImageRegistry → Modify ClaimSpec
modify_claim cr o conditions = (
  fill_claim cr (if cr.spec.persistent_volume_claim.delete_claim then o else disown cr o),
  conditions,
)

unfoldable pub reconcile_persistent_volume_claim :
    {S : Type 0} → CreateOrUpdate S ClaimSpec → SetControllerReference → Task S
reconcile_persistent_volume_claim create_or_update set_controller_reference cr =
    upsert create_or_update set_controller_reference (owner_for_cr cr)
      (new_resource cr.meta.namespace (pvc_name_for_cr cr) new_claim) (modify_claim cr)
