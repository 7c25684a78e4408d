-- ===== src/ImageRegistry/StatefulSet.antt =====
-- pkg/controller/imageregistry/imageregistry_reconcile_svc.go, the stateful set of a registry and the
-- ready condition that is read off it.
use image_registry_operator.Prelude.{
  Bool, true, false, ◌&&◌, Option, none, some, [], ◌++◌, ◌∷◌, if◌then◌else◌,
}
use image_registry_operator.Prelude.Int.{ℤ, pos, int_eq}
use image_registry_operator.Go.Text.{Text, text, text_eq, format_int}
use image_registry_operator.Go.Map.{Map, lookup, insert, or_empty}
use image_registry_operator.Kube.Meta.{Condition, Resource, new_resource}
use image_registry_operator.Kube.Pod.{PodSpec}
use image_registry_operator.V1alpha1.{ImageRegistry, condition_ready, reason_updating}
use image_registry_operator.ImageRegistry.Names.{
  registry_hostname, service_name_for_cr, selector_labels_for_cr,
}
use image_registry_operator.ImageRegistry.Upsert.{
  ReconcileImageRegistry, Conditions, CreateOrUpdate, SetControllerReference, Task, Modify, upsert,
}
use image_registry_operator.ImageRegistry.Pod.{update_pod}

pub record StatefulSetSpec : Type 0 where
  pub replicas : Option ℤ
  pub service_name : Text
  pub update_strategy : Text
  pub selector : Option (Map Text)
  pub template_labels : Map Text
  pub pod : PodSpec

pub record StatefulSetStatus : Type 0 where
  pub observed_generation : ℤ
  pub replicas : ℤ
  pub ready_replicas : ℤ
  pub updated_replicas : ℤ

pub record StatefulSet : Type 0 where
  pub spec : StatefulSetSpec
  pub status : StatefulSetStatus

abbrev pub annotation_image_registry_generation : Text
annotation_image_registry_generation = text "registry.mgoltzsche.github.com/generation"

abbrev pub annotation_stateful_set_external_name : Text
annotation_stateful_set_external_name = text "registry.mgoltzsche.github.com/externalName"

abbrev pub new_stateful_set : StatefulSet
new_stateful_set = record {
  spec = record {
    replicas = none;
    service_name = [];
    update_strategy = [];
    selector = none;
    template_labels = [];
    pod = record { service_account_name = []; restart_policy = []; volumes = []; containers = [] };
  };
  status = record {
    observed_generation = pos 0;
    replicas = pos 0;
    ready_replicas = pos 0;
    updated_replicas = pos 0;
  };
}

abbrev pub wanted_replicas : ImageRegistry → ℤ
wanted_replicas cr = elim cr.spec.replicas [ none ↦ pos 1 | some n ↦ n ]

unfoldable pub update_stateful_set_for_cr :
    ReconcileImageRegistry → ImageRegistry → Resource StatefulSet → Resource StatefulSet
update_stateful_set_for_cr r cr o = record o {
  body = record o.body {
    spec = record {
      replicas = some (wanted_replicas cr);
      service_name = service_name_for_cr cr;
      update_strategy = text "RollingUpdate";
      selector = some (selector_labels_for_cr cr);
      template_labels = selector_labels_for_cr cr;
      pod = update_pod r cr o.body.spec.pod;
    };
  };
}

-- The status speaks of the stateful set as it is.
abbrev pub is_observed : Resource StatefulSet → Bool
is_observed o = int_eq o.body.status.observed_generation o.meta.generation

-- The stateful set was last written for the CR as it is.
abbrev pub is_current : ImageRegistry → Resource StatefulSet → Bool
is_current cr o =
    text_eq (or_empty (lookup annotation_image_registry_generation o.meta.annotations))
      (format_int cr.meta.generation)

-- `updatedReplicas`.
abbrev pub updated_replicas : Resource StatefulSet → ℤ
updated_replicas o = if is_observed o then o.body.status.updated_replicas else pos 0

-- `spec.replicas` is compared where it is not nil.
abbrev has_replicas : ℤ → Option ℤ → Bool
has_replicas n none = false
has_replicas n (some m) = int_eq m n

unfoldable pub is_ready : ImageRegistry → Resource StatefulSet → Bool
is_ready cr o =
    let n = wanted_replicas cr in
    (is_observed o && is_current cr o)
    && has_replicas n o.body.spec.replicas
    && int_eq o.body.status.replicas n
    && int_eq o.body.status.ready_replicas n
    && int_eq (updated_replicas o) n

unfoldable pub ready_condition : ImageRegistry → Resource StatefulSet → Condition
ready_condition cr o =
    if is_ready cr o
    then record { type = condition_ready; is_true = true; reason = []; message = [] }
    else record {
      type = condition_ready;
      is_true = false;
      reason = reason_updating;
      message =
          format_int (updated_replicas o)
          ++ b'/' ∷ (format_int (wanted_replicas cr) ++ text " pods updating");
    }

-- The annotations that say what the stateful set was written for.
abbrev pub annotate :
    ReconcileImageRegistry → ImageRegistry → Resource StatefulSet → Resource StatefulSet
annotate r cr o = record o {
  meta = record o.meta {
    annotations = insert annotation_stateful_set_external_name (registry_hostname cr r.dns_zone) (
        insert annotation_image_registry_generation (format_int cr.meta.generation)
          o.meta.annotations);
  };
}

-- The function that `reconcileStatefulSet` hands to `upsert`. The ready condition is set before the
-- annotation takes the new generation.
unfoldable pub modify_stateful_set :
    (Condition → Conditions → Conditions × Bool)
    → ReconcileImageRegistry
    → ImageRegistry
    → Modify StatefulSet
modify_stateful_set set_condition r cr o conditions =
    let updated = update_stateful_set_for_cr r cr o in
    (annotate r cr updated, (set_condition (ready_condition cr updated) conditions).0)

unfoldable pub reconcile_stateful_set :
    {S : Type 0}
    → CreateOrUpdate S StatefulSet
    → SetControllerReference
    → (Condition → Conditions → Conditions × Bool)
    → ReconcileImageRegistry
    → Task S
reconcile_stateful_set create_or_update set_controller_reference set_condition r cr =
    upsert create_or_update set_controller_reference (some cr)
      (new_resource cr.meta.namespace cr.meta.name new_stateful_set)
      (modify_stateful_set set_condition r cr)
