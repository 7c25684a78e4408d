-- ===== src/Controllers/Objects.antt =====
-- The objects that a registry has once its tasks went through (`reconcileTasks` and `upsert` of
-- pkg/controller/imageregistry).
use image_registry_operator.Prelude.{
  ◌≡◌, ◌≢◌, sym, ◌∙◌, ap, inl, inr, Option, none, some, Option-cases, List, [], ◌∷◌, All, arith,
}
use image_registry_operator.Go.Error.{Result, ok}
use image_registry_operator.Go.Panic.{Panics-cases, done}
use image_registry_operator.Kube.Meta.{NamespacedName, ObjectMeta, Resource, key_of}
use image_registry_operator.Kube.Controller.{Kind}
use image_registry_operator.V1alpha1.{ImageRegistry}
use image_registry_operator.ImageRegistry.Upsert.{
  Conditions, CreateOrUpdate, SetControllerReference, Task, Modify, change, upsert,
}
use image_registry_operator.ImageRegistry.Reconcile.{run_tasks}
use image_registry_operator.Controllers.Children.{Agrees}

-- The metadata of the objects of a cluster.
abbrev pub Objects : Type 0 → Type 0
Objects S = S → Kind → NamespacedName → Option ObjectMeta

-- `CreateOrUpdate` on objects of one kind. Without an error, what the function made of the object
-- under the key, which was found or is new, is stored there; objects of other kinds stay as they are.
pub record Upserts {S A : Type 0} (objects : Objects S) (k : Kind)
    (create_or_update : CreateOrUpdate S A) : Type 0 where
  pub stored :
      (o : Resource A) (f : Resource A → Conditions → Result (Resource A × Conditions))
      (c : Conditions) (s : S)
      → (create_or_update o f c s).error ≡ none
      → (x y : Resource A) × (c' : Conditions) × (m : ObjectMeta) × (x.meta.namespace
          ≡ o.meta.namespace)
        × (f x c ≡ ok (y, c'))
        × (objects (create_or_update o f c s).cluster k (key_of o.meta) ≡ some m)
        × Agrees m y.meta
  pub others :
      (o : Resource A) (f : Resource A → Conditions → Result (Resource A × Conditions))
      (c : Conditions) (s : S) (j : Kind) (key : NamespacedName)
      → j ≢ k
      → objects (create_or_update o f c s).cluster j key ≡ objects s j key

module _ {S A : Type 0} {objects : Objects S} {k : Kind} {create_or_update : CreateOrUpdate S A}
    (law : Upserts objects k create_or_update) (set_ref : SetControllerReference)
    (owner : Option ImageRegistry) (o : Resource A) (modify : Modify A) (c : Conditions)
    (s : S) where
  pub upsert-stored :
      (c1 : Conditions) (s1 : S)
      → upsert create_or_update set_ref owner o modify c s ≡ done (none, c1, s1)
      → (x y : Resource A) × (c' : Conditions) × (m : ObjectMeta) × (x.meta.namespace
          ≡ o.meta.namespace)
        × (change set_ref owner modify x c ≡ ok (y, c'))
        × (objects s1 k (key_of o.meta) ≡ some m)
        × Agrees m y.meta
  unfolding upsert
  upsert-stored c1 s1 e =
      let u = create_or_update o (change set_ref owner modify) c s in
      elim (Option-cases u.error) [
        | inr (x, p) ↦ absurd (ground (arith, p, e))
        | inl p ↦
            let (x, y, c', m, near, made, there, agrees) =
              law.stored o (change set_ref owner modify) c s p in
            let last : u.cluster ≡ s1 = ground (arith, e) in
            (
              x,
              y,
              c',
              m,
              near,
              made,
              ap (λ t. objects t k (key_of o.meta)) (sym last) ∙ there,
              agrees,
            )
      ]

  pub upsert-others :
      (c1 : Conditions) (s1 : S) (j : Kind) (key : NamespacedName)
      → upsert create_or_update set_ref owner o modify c s ≡ done (none, c1, s1)
      → j ≢ k
      → objects s1 j key ≡ objects s j key
  unfolding upsert
  upsert-others c1 s1 j key e other =
      let u = create_or_update o (change set_ref owner modify) c s in
      let last : u.cluster ≡ s1 = ground (arith, e) in
      ap (λ t. objects t j key) (sym last)
      ∙ law.others o (change set_ref owner modify) c s j key other

module _ {S : Type 0} (objects : Objects S) (cr : ImageRegistry) where
  -- A task that does not fail leaves the objects of a kind as they are.
  abbrev pub Leaves : Kind → Task S → Type 0
  Leaves j task =
      (c c1 : Conditions) (s s1 : S) (key : NamespacedName)
      → task cr c s ≡ done (none, c1, s1)
      → objects s1 j key ≡ objects s j key

  pub run_tasks-cons :
      (task : Task S) (tasks : List (Task S)) (c c' : Conditions) (s s' : S)
      → run_tasks (task ∷ tasks) cr c s ≡ done (none, c', s')
      → (c1 : Conditions) × (s1 : S) × (task cr c s ≡ done (none, c1, s1))
        × (run_tasks tasks cr c1 s1 ≡ done (none, c', s'))
  unfolding run_tasks
  run_tasks-cons task tasks c c' s s' e = elim (Panics-cases (task cr c s)) [
    | inl (x, p) ↦ absurd (ground (arith, p, e))
    | inr ((some x, c1, s1), p) ↦ absurd (ground (arith, p, e))
    | inr ((none, c1, s1), p) ↦ (c1, s1, p, ground (arith, p, e))
  ]

  pub run_tasks-Leaves :
      (j : Kind) (tasks : List (Task S)) (c c' : Conditions) (s s' : S) (key : NamespacedName)
      → All (Leaves j) tasks
      → run_tasks tasks cr c s ≡ done (none, c', s')
      → objects s' j key ≡ objects s j key
  unfolding run_tasks
  run_tasks-Leaves j [] c c' s s' key all e = ap (λ t. objects t j key) (ground (arith, e))
  run_tasks-Leaves j (task ∷ tasks) c c' s s' key all e =
      let (c1, s1, p, rest) = run_tasks-cons task tasks c c' s s' e in
      run_tasks-Leaves j tasks c1 c' s1 s' key all.1 rest ∙ all.0 c c1 s s1 key p
