-- ===== src/ImageRegistry/Claim.antt =====
-- The volume claim of a registry (pkg/controller/imageregistry/imageregistry_reconcile_svc.go): which
-- request its events lead to, and who owns it.
use image_registry_operator.Prelude.{
  ◌≡◌, ◌≢◌, refl, ◌∙◌, ap, false, some, [], ◌∷◌, Bool-cases, inl, inr,
}
use image_registry_operator.Go.Text.{text_eq, Lacks}
use image_registry_operator.Go.Map.{lookup, lookup-insert, or_empty}
use image_registry_operator.Go.Error.{ok}
use image_registry_operator.Kube.Meta.{Resource, key_of}
use image_registry_operator.Backrefs.Keys.{
  separator, annotations, map_request, to_map_value, parse_value, parse_value-to_map_value,
}
use image_registry_operator.V1alpha1.{ImageRegistry}
use image_registry_operator.ImageRegistry.Upsert.{
  Conditions, SetControllerReference, change, set_owner,
}
use image_registry_operator.ImageRegistry.Service.{
  ClaimSpec, annotation_image_registry, modify_claim, owner_for_cr,
}

claim-annotated :
    (cr : ImageRegistry) (o : Resource ClaimSpec) (conditions : Conditions)
    → lookup annotation_image_registry (modify_claim cr o conditions).0.meta.annotations
      ≡ some (to_map_value (key_of cr.meta))
unfolding modify_claim text_eq
claim-annotated cr o conditions =
    let key = annotation_image_registry in
    let value = to_map_value (key_of cr.meta) in
    elim (Bool-cases cr.spec.persistent_volume_claim.delete_claim) [
      | inl p ↦ rw p (lookup-insert key key value o.meta.annotations)
      | inr p ↦ rw p (lookup-insert key key value o.meta.annotations)
    ]

-- An event of a registry's volume claim, which the CR does not own unless it is to be deleted with
-- it, requests exactly the CR by its annotation, if the name of the CR is not empty and has no dot and
-- its namespace is not empty.
pub claim_requests_its_registry :
    (cr : ImageRegistry) (o : Resource ClaimSpec) (conditions : Conditions)
    → Lacks separator cr.meta.name
    → cr.meta.name ≢ []
    → cr.meta.namespace ≢ []
    → map_request annotations annotation_image_registry (modify_claim cr o conditions).0.meta
      ≡ key_of cr.meta ∷ []
unfolding map_request
claim_requests_its_registry cr o conditions plain named spaced =
    ap (λ v. parse_value (or_empty v)) (claim-annotated cr o conditions)
    ∙ parse_value-to_map_value (key_of cr.meta) plain named spaced

-- A claim that is not to be deleted with the CR loses all its owners in every change, also those
-- that an earlier spec of the CR gave it, and the change does not fail.
pub claim_outlives_registry :
    (set_controller_reference : SetControllerReference) (cr : ImageRegistry)
    (o : Resource ClaimSpec) (conditions : Conditions)
    → cr.spec.persistent_volume_claim.delete_claim ≡ false
    → (o' : Resource ClaimSpec) × (o'.meta.owner_references ≡ [])
      × (change set_controller_reference (owner_for_cr cr) (modify_claim cr) o conditions
          ≡ ok (o', conditions))
unfolding change set_owner modify_claim
claim_outlives_registry set_controller_reference cr o conditions kept =
    ((modify_claim cr o conditions).0, rw kept refl, rw kept refl)
