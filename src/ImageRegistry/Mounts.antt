-- ===== src/ImageRegistry/Mounts.antt =====
-- The pod of a registry is well-formed (pkg/controller/imageregistry/imageregistry_reconcile_svc.go).
use image_registry_operator.Prelude.{
  ◌≡◌, refl, Bool, true, Option-cases, inl, inr, List, any, All, arith,
}
use image_registry_operator.Go.Text.{text_eq}
use image_registry_operator.Merge.Laws.{IsDistinct}
use image_registry_operator.Kube.Pod.{Volume, VolumeMount, Container}
use image_registry_operator.V1alpha1.{ImageRegistry}
use image_registry_operator.Kube.Meta.{Condition, Resource}
use image_registry_operator.ImageRegistry.StatefulSet.{
  StatefulSet, update_stateful_set_for_cr, modify_stateful_set,
}
use image_registry_operator.ImageRegistry.Upsert.{ReconcileImageRegistry, Conditions}
use image_registry_operator.ImageRegistry.Pod.{volumes_for_cr, containers_for_cr}

abbrev pub is_volume : List Volume → VolumeMount → Bool
is_volume volumes m = any (λ v. text_eq v.name m.name) volumes

-- The API server refuses a pod without this: volumes and containers have distinct names, and what a
-- container mounts is a volume of the pod.
pub record IsWellFormed (volumes : List Volume) (containers : List Container) : Type 0 where
  pub distinct_volumes : IsDistinct volumes
  pub distinct_containers : IsDistinct containers
  pub mounted : All (λ c. All (λ m. is_volume volumes m ≡ true) c.body.volume_mounts) containers

parts-IsWellFormed :
    (r : ReconcileImageRegistry) (cr : ImageRegistry)
    → IsWellFormed (volumes_for_cr cr) (containers_for_cr r cr)
unfolding volumes_for_cr containers_for_cr text_eq
parts-IsWellFormed r cr = elim (Option-cases cr.spec.auth.config_map_name) [
  | inl p ↦ record {
    distinct_volumes = rw p (ground arith);
    distinct_containers = ground arith;
    mounted = rw p ((refl, (refl, tt)), ((refl, tt), ((refl, tt), tt)));
  }
  | inr (name, p) ↦ record {
    distinct_volumes = rw p (ground arith);
    distinct_containers = ground arith;
    mounted = rw p ((refl, (refl, tt)), ((refl, (rw p refl, tt)), ((refl, tt), tt)));
  }
]

-- Whatever stateful set is found, the pod that a reconciliation leaves in it has distinct
-- volumes and containers, and its containers mount volumes of the pod, whether the CR names a config map or not.
pub pod-IsWellFormed :
    (set_condition : Condition → Conditions → Conditions × Bool) (r : ReconcileImageRegistry)
    (cr : ImageRegistry) (o : Resource StatefulSet) (conditions : Conditions)
    → let pod = (modify_stateful_set set_condition r cr o conditions).0.body.spec.pod in
      IsWellFormed pod.volumes pod.containers
unfolding modify_stateful_set update_stateful_set_for_cr
pod-IsWellFormed set_condition r cr o conditions = parts-IsWellFormed r cr
