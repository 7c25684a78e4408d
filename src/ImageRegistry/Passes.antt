-- ===== src/ImageRegistry/Passes.antt =====
-- Tasks of the registry controller (pkg/controller/imageregistry) that keep each condition under its
-- type: an upsert by a `CreateOrUpdate` that sets no conditions of its own, and the loop over the tasks.
use image_registry_operator.Prelude.{
  ◌≡◌, ◌⊎◌, refl, sym, ◌∙◌, ap, subst, inl, inr, Option, none, some, List, [], ◌∷◌, All, arith,
}
use image_registry_operator.Go.Error.{Error, Result, Result-cases, ok, err}
use image_registry_operator.Go.Panic.{Panics, Panics-cases, done, panic}
use image_registry_operator.Kube.Meta.{Resource}
use image_registry_operator.V1alpha1.{ImageRegistry}
use image_registry_operator.ImageRegistry.Upsert.{
  Conditions, CreateOrUpdate, SetControllerReference, Task, Modify, change, set_owner, upsert,
}
use image_registry_operator.ImageRegistry.Reconcile.{run_tasks}
use image_registry_operator.ImageRegistry.Status.{IsKeyed}

-- `CreateOrUpdate` leaves the conditions, or has those of the function that it called.
abbrev pub Passes : {S A : Type 0} → CreateOrUpdate S A → Type 0
Passes {S} {A} create_or_update =
    (o : Resource A) (f : Resource A → Conditions → Result (Resource A × Conditions))
    (conditions : Conditions) (s : S)
    → ((create_or_update o f conditions s).conditions ≡ conditions)
      ⊎ ((x : Resource A) × (p : Resource A × Conditions) × (f x conditions ≡ ok p)
          × ((create_or_update o f conditions s).conditions ≡ p.1))

-- The conditions that a task leaves, none if it panics.
abbrev pub set_of : {S : Type 0} → Panics (Option Error × Conditions × S) → Conditions
set_of (done (e, conditions, s)) = conditions
set_of (panic t) = []

abbrev pub Keeps : {S : Type 0} → Task S → Type 0
Keeps {S} task =
    (cr : ImageRegistry) (conditions : Conditions) (s : S)
    → IsKeyed conditions
    → IsKeyed (set_of (task cr conditions s))

module _ {S A : Type 0} (create_or_update : CreateOrUpdate S A) (passes : Passes create_or_update)
    (set_ref : SetControllerReference) where
  change-owned :
      (owner : Option ImageRegistry) (modify : Modify A) (x y : Resource A)
      (conditions : Conditions)
      → set_owner set_ref owner x ≡ ok y
      → change set_ref owner modify x conditions ≡ ok (modify y conditions)
  unfolding change
  change-owned owner modify x y conditions q = rw q refl

  change-modify :
      (owner : Option ImageRegistry) (modify : Modify A) (x : Resource A) (conditions : Conditions)
      (p : Resource A × Conditions)
      → change set_ref owner modify x conditions ≡ ok p
      → (y : Resource A) × (modify y conditions ≡ p)
  unfolding change
  change-modify owner modify x conditions p e = elim (Result-cases (set_owner set_ref owner x)) [
    | inr (err_, q) ↦ absurd (ground (arith, q, e))
    | inl (y, q) ↦ (
      y,
      ap (λ r. elim r [ ok v ↦ v | err bad ↦ modify y conditions ])
          (sym (change-owned owner modify x y conditions q) ∙ e),
    )
  ]

  pub upsert-Keeps :
      (owner : Option ImageRegistry) (o : Resource A) (modify : Modify A) (conditions : Conditions)
      (s : S)
      → ((y : Resource A) → IsKeyed conditions → IsKeyed (modify y conditions).1)
      → IsKeyed conditions
      → IsKeyed (set_of (upsert create_or_update set_ref owner o modify conditions s))
  unfolding upsert
  upsert-Keeps owner o modify conditions s keeps keyed =
      elim (passes o (change set_ref owner modify) conditions s) [
        | inl same ↦ subst IsKeyed (sym same) keyed
        | inr (x, p, called, same) ↦
            let (y, made) = change-modify owner modify x conditions p called in
            subst IsKeyed (ap (λ (q : Resource A × Conditions). q.1) made ∙ sym same)
              (keeps y keyed)
      ]

module _ {S : Type 0} where
  pub run_tasks-Keeps :
      (tasks : List (Task S)) (cr : ImageRegistry) (conditions : Conditions) (s : S)
      → All Keeps tasks
      → IsKeyed conditions
      → IsKeyed (set_of (run_tasks tasks cr conditions s))
  unfolding run_tasks
  run_tasks-Keeps [] cr conditions s keeps keyed = keyed
  run_tasks-Keeps (task ∷ tasks) cr conditions s keeps keyed =
      let left = keeps.0 cr conditions s keyed in
      elim (Panics-cases (task cr conditions s)) [
        | inl (t, p) ↦ rw p tt
        | inr ((some e, conditions', s'), p) ↦ rw p (rw p at left)
        | inr ((none, conditions', s'), p) ↦
            rw p (run_tasks-Keeps tasks cr conditions' s' keeps.1 (rw p at left))
      ]
