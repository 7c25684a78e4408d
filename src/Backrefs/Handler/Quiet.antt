-- ===== src/Backrefs/Handler/Quiet.antt =====
-- When updating the references of an owner writes, and in which order.
use image_registry_operator.Prelude.{
  ◌≡◌, refl, ap, inl, inr, ◌⊎◌, true, not, Option, none, some, List, [], ◌∷◌, select, All, arith,
}
use image_registry_operator.Go.Error.{Error, ok, err, Result-cases}
use image_registry_operator.Go.Panic.{Panics-cases, done}
use image_registry_operator.Backrefs.OwnerRefs.{Object, check_namespace, has_uid}
use image_registry_operator.Backrefs.OwnerRefs.Laws.{add_reference-found}
use image_registry_operator.Backrefs.Handler.{
  Ref, Owner, Client, Strategy, save_and_add, owner_references, has_ref_key, diff_refs,
  add_new_refs, delete_old_refs, save_status, update_references,
}

-- Each reference has the key of one of the others.
abbrev pub Covered : List Ref → List Ref → Type 0
Covered others = All (λ r. has_ref_key others r ≡ true)

-- The object is in the owner's namespace and has a back reference to it.
abbrev pub Referring : Object → Ref → Type 0
Referring owner r =
    (check_namespace r.meta owner.meta ≡ done tt)
    × (has_uid owner.meta.uid r.meta.owner_references ≡ true)

select-Covered :
    (others refs : List Ref)
    → Covered others refs
    → select (λ r. not (has_ref_key others r)) refs ≡ []
select-Covered others [] h = refl
select-Covered others (r ∷ refs) h = rw h.0 (select-Covered others refs h.1)

module _ {S : Type 0} (client : Client S) where
  add_new_refs-Referring :
      (owner : Object) (refs : List Ref) (s : S)
      → All (Referring owner) refs
      → add_new_refs client owner_references owner refs s ≡ done (none, s)
  unfolding add_new_refs
  add_new_refs-Referring owner [] s h = refl
  add_new_refs-Referring owner (r ∷ refs) s h =
      rw (add_reference-found r.meta owner h.0.0 h.0.1) (add_new_refs-Referring owner refs s h.1)

  -- If the status has the references already, and each object has its back reference, updating the
  -- references of an owner writes nothing.
  pub update_references_quiet :
      (owner : Owner) (refs : List Ref) (s : S)
      → Covered refs owner.status_references
      → Covered owner.status_references refs
      → All (Referring owner.object) refs
      → update_references client owner_references owner refs s ≡ done (none, s)
  unfolding update_references diff_refs delete_old_refs
  update_references_quiet owner refs s kept known referring =
      rw
        (
          select-Covered refs owner.status_references kept,
          select-Covered owner.status_references refs known,
        )
        (add_new_refs-Referring owner.object refs s referring)

module _ {S : Type 0} (client : Client S) (strategy : Strategy) (owner : Owner)
    (refs : List Ref) where
  -- Back references are added to what the deletions and the status update left.
  abbrev pub Added : Option Error → S → S → Type 0
  Added e s t =
      (saved : Owner) × (u : S) × (save_status client strategy owner refs
          (diff_refs owner.status_references refs) s
        ≡ (ok saved, u))
      × (add_new_refs client strategy saved.object refs u ≡ done (e, t))

  save_and_add-order :
      (s t : S) (e : Option Error)
      → save_and_add client strategy owner refs (diff_refs owner.status_references refs) (none, s)
        ≡ done (e, t)
      → ((x : Error) × (e ≡ some x)
          × (save_status client strategy owner refs (diff_refs owner.status_references refs) s
              ≡ (err x, t)))
        ⊎ Added e s t
  save_and_add-order s t e h =
      let w = save_status client strategy owner refs (diff_refs owner.status_references refs) s in
      elim (Result-cases w.0) [
        | inr (x, p) ↦ inl (x, ground (arith, p, h), ground (arith, p, h))
        | inl (saved, p) ↦ inr (saved, w.1, ap (λ r. (r, w.1)) p, ground (arith, p, h))
      ]

  -- However updating the references of an owner ends, unless it panics: it ends with the deletions, or
  -- with an error of the status update behind them, or with the addition of back references behind
  -- both.
  pub status_before_references :
      (s t : S) (e : Option Error)
      → update_references client strategy owner refs s ≡ done (e, t)
      → ((x : Error) × (e ≡ some x)
          × (delete_old_refs client strategy owner.object
                (diff_refs owner.status_references refs).0
                s
              ≡ done (e, t)))
        ⊎ ((u : S) × (delete_old_refs client strategy owner.object
                (diff_refs owner.status_references refs).0
                s
              ≡ done (none, u))
            × (((x : Error) × (e ≡ some x)
                  × (save_status client strategy owner refs
                        (diff_refs owner.status_references refs)
                        u
                      ≡ (err x, t)))
                ⊎ Added e u t))
  unfolding update_references
  status_before_references s t e h =
      elim (Panics-cases (
        delete_old_refs client strategy owner.object (diff_refs owner.status_references refs).0
          s)) [
            | inl (x, p) ↦ absurd (ground (arith, p, h))
            | inr ((some x, u), p) ↦ inl (x, ground (arith, p, h), ground (arith, p, h))
            | inr ((none, u), p) ↦ inr (u, p, save_and_add-order u t e (ground (arith, p, h)))
          ]
