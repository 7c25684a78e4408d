-- ===== src/ImageRegistry/Readiness.antt =====
-- When a registry is reported as ready (pkg/controller/imageregistry/imageregistry_reconcile_svc.go).
use image_registry_operator.Prelude.{
  ◌≡◌, ◌↔◌, refl, sym, ◌∙◌, ap, Bool, true, false, ◌&&◌, some, if◌then◌else◌, arith,
}
use image_registry_operator.Prelude.Int.{ℤ, pos, int_eq, int_eq_iff}
use image_registry_operator.Go.Text.{
  text_eq, text_eq_iff, text_eq_refl, format_int, format_int-injective,
}
use image_registry_operator.Go.Map.{lookup, insert, lookup-insert, or_empty}
use image_registry_operator.Kube.Meta.{Condition, Resource}
use image_registry_operator.V1alpha1.{ImageRegistry, condition_ready}
use image_registry_operator.ImageRegistry.Upsert.{ReconcileImageRegistry, Conditions}
use image_registry_operator.ImageRegistry.Reconcile.{SetCondition}
use image_registry_operator.ImageRegistry.Status.{ConditionLaws}
use image_registry_operator.ImageRegistry.StatefulSet.{
  StatefulSet, annotation_image_registry_generation, wanted_replicas, update_stateful_set_for_cr,
  is_ready, ready_condition, modify_stateful_set, annotate, annotation_stateful_set_external_name,
}
use image_registry_operator.ImageRegistry.Names.{registry_hostname}

-- The stateful set was written for the CR as it is, its status speaks of it as it is, and all pods
-- that the CR asks for are there, ready and updated.
pub record RolledOut (cr : ImageRegistry) (o : Resource StatefulSet) : Type 0 where
  pub written :
      or_empty (lookup annotation_image_registry_generation o.meta.annotations)
      ≡ format_int cr.meta.generation
  pub observed : o.body.status.observed_generation ≡ o.meta.generation
  pub replicas : o.body.status.replicas ≡ wanted_replicas cr
  pub ready_replicas : o.body.status.ready_replicas ≡ wanted_replicas cr
  pub updated_replicas : o.body.status.updated_replicas ≡ wanted_replicas cr

passed :
    (a b c d e : Bool) (test : ℤ → Bool) (u z : ℤ)
    → (((a && b) && c && d && e && test (if a then u else z)) ≡ true)
      ↔ ((a ≡ true) × (b ≡ true) × (c ≡ true) × (d ≡ true) × (e ≡ true) × (test u ≡ true))
passed true b c d e test u z = ground arith
passed false b c d e test u z = ground arith

-- The replicas in the spec, which have just been written, do not matter.
is_ready_iff_RolledOut :
    (r : ReconcileImageRegistry) (cr : ImageRegistry) (o : Resource StatefulSet)
    → (is_ready cr (update_stateful_set_for_cr r cr o) ≡ true) ↔ RolledOut cr o
unfolding is_ready update_stateful_set_for_cr
is_ready_iff_RolledOut r cr o =
    let n = wanted_replicas cr in
    let st = o.body.status in
    let observed = int_eq_iff st.observed_generation o.meta.generation in
    let replicas = int_eq_iff st.replicas n in
    let ready = int_eq_iff st.ready_replicas n in
    let updated = int_eq_iff st.updated_replicas n in
    let written =
      text_eq_iff (or_empty (lookup annotation_image_registry_generation o.meta.annotations))
        (format_int cr.meta.generation) in
    let all =
      passed (int_eq st.observed_generation o.meta.generation)
        (text_eq (or_empty (lookup annotation_image_registry_generation o.meta.annotations))
          (format_int cr.meta.generation))
        (int_eq n n) (int_eq st.replicas n) (int_eq st.ready_replicas n) (λ m. int_eq m n)
        st.updated_replicas (pos 0) in
    (
      λ h.
          let (a, b, own, c, d, e) = all.0 h in
          record {
            written = written.0 b;
            observed = observed.0 a;
            replicas = replicas.0 c;
            ready_replicas = ready.0 d;
            updated_replicas = updated.0 e;
          },
      λ h. all.1 (
        observed.1 h.observed,
        written.1 h.written,
        (int_eq_iff n n).1 refl,
        replicas.1 h.replicas,
        ready.1 h.ready_replicas,
        updated.1 h.updated_replicas,
      ),
    )

annotate-written :
    (r : ReconcileImageRegistry) (cr : ImageRegistry) (o : Resource StatefulSet)
    → lookup annotation_image_registry_generation (annotate r cr o).meta.annotations
      ≡ some (format_int cr.meta.generation)
unfolding text_eq
annotate-written r cr o =
    let key = annotation_image_registry_generation in
    let host = registry_hostname cr r.dns_zone in
    let value = format_int cr.meta.generation in
    lookup-insert annotation_stateful_set_external_name key host
      (insert key value o.meta.annotations)
    ∙ lookup-insert key key value o.meta.annotations

ready_condition-is_true :
    (cr : ImageRegistry) (o : Resource StatefulSet)
    → ((ready_condition cr o).type ≡ condition_ready)
      × ((ready_condition cr o).is_true ≡ is_ready cr o)
unfolding ready_condition
ready_condition-is_true cr o = (ground arith, ground arith)

-- A reconciliation of the stateful set leaves a ready condition, and it is true exactly if the
-- stateful set that was found was rolled out: written for the current CR, and with all the pods that
-- the CR asks for, ready and updated. `SetCondition` is as documented.
pub ready_iff_RolledOut :
    (set_condition : SetCondition) (laws : ConditionLaws set_condition) (r : ReconcileImageRegistry)
    (cr : ImageRegistry) (o : Resource StatefulSet) (conditions : Conditions)
    → (c : Condition) × (lookup condition_ready
          (modify_stateful_set set_condition r cr o conditions).1
        ≡ some c)
      × ((c.is_true ≡ true) ↔ RolledOut cr o)
unfolding modify_stateful_set
ready_iff_RolledOut set_condition laws r cr o conditions =
    let c = ready_condition cr (update_stateful_set_for_cr r cr o) in
    let (type, flag) = ready_condition-is_true cr (update_stateful_set_for_cr r cr o) in
    let rolled = is_ready_iff_RolledOut r cr o in
    let there =
      laws.sets c conditions condition_ready
      ∙ ap (λ t. if text_eq t condition_ready then some c else lookup condition_ready conditions)
          type
      ∙ ap (λ b. if b then some c else lookup condition_ready conditions)
          (text_eq_refl condition_ready) in
    (c, there, (λ h. rolled.0 (sym flag ∙ h), λ h. flag ∙ rolled.1 h))

-- A stateful set that was last written for another generation of the CR is not ready for this one.
pub ready_means_written :
    (r written_by : ReconcileImageRegistry) (cr former : ImageRegistry) (o : Resource StatefulSet)
    → is_ready cr (update_stateful_set_for_cr r cr (annotate written_by former o)) ≡ true
    → cr.meta.generation ≡ former.meta.generation
ready_means_written r written_by cr former o h =
    let rolled = (is_ready_iff_RolledOut r cr (annotate written_by former o)).0 h in
    format_int-injective cr.meta.generation former.meta.generation
      (sym rolled.written ∙ ap or_empty (annotate-written written_by former o))
