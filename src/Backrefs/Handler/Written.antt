-- ===== src/Backrefs/Handler/Written.antt =====
-- The back references that are there once the references of an owner are updated (`UpdateReferences`
-- of pkg/backrefs/refhandler.go).
use image_registry_operator.Prelude.{
  ◌≡◌, ◌≢◌, sym, ap, ◌∙◌, subst, inl, inr, true, not, ◌&&◌, Bool-cases, none, List, [], ◌∷◌, select,
  All, All-map, Has, arith,
}
use image_registry_operator.Go.Text.{text_eq, text_eq_refl}
use image_registry_operator.Go.Error.{ok}
use image_registry_operator.Go.Panic.{done}
use image_registry_operator.Backrefs.OwnerRefs.{has_uid}
use image_registry_operator.Backrefs.Handler.{
  Ref, Owner, Client, owner_references, is_nil, ref_key, has_ref_key, diff_refs, save_status,
  update_references,
}
use image_registry_operator.Backrefs.Handler.Quiet.{status_before_references}
use image_registry_operator.Backrefs.Handler.Steps.{
  ClientLaws, IsReferring, IsLoaded, add_new_refs-Referring, delete_old_refs-others,
}

has_ref_key-Has :
    (refs : List Ref) (q d : Ref) → Has q refs → ref_key q ≡ ref_key d → has_ref_key refs d ≡ true
unfolding has_ref_key
has_ref_key-Has [] q d h key = absurd h
has_ref_key-Has (r ∷ refs) q d (inl same) key =
    let p : text_eq (ref_key r) (ref_key d) ≡ true =
      ap (λ x. text_eq (ref_key x) (ref_key d)) (sym same)
      ∙ ap (λ k. text_eq k (ref_key d)) key
      ∙ text_eq_refl (ref_key d) in
    ground (arith, p)
has_ref_key-Has (r ∷ refs) q d (inr there) key = ground (arith, has_ref_key-Has refs q d there key)

-- The references to delete have other keys than the new ones.
diff_refs-others :
    (refs olds : List Ref) (q : Ref)
    → Has q refs
    → All (λ d. ref_key q ≢ ref_key d) (select (λ r. not (has_ref_key refs r)) olds)
diff_refs-others refs [] q h = tt
diff_refs-others refs (d ∷ olds) q h = elim (Bool-cases (has_ref_key refs d)) [
  | inl p ↦ rw p (diff_refs-others refs olds q h)
  | inr p ↦ rw p (
    λ key. absurd (ground (arith, p, has_ref_key-Has refs q d h key)),
    diff_refs-others refs olds q h,
  )
]

module _ {S : Type 0} (client : Client S) (refs : List Ref) (laws : ClientLaws client refs)
    (owner : Owner) where
  save_status-keeps :
      (saved : Owner) (s t : S)
      → save_status client owner_references owner refs (diff_refs owner.status_references refs) s
        ≡ (ok saved, t)
      → (saved.object.meta.uid ≡ owner.object.meta.uid)
        × ((q : Ref) → Has q refs → client.get q t ≡ client.get q s)
  save_status-keeps saved s t e =
      let d = diff_refs owner.status_references refs in
      let new = record owner { status_references = refs } in
      elim (Bool-cases (is_nil d.0 && is_nil d.1)) [
        | inl p ↦
            let same : owner ≡ saved = ground (arith, p, e) in
            let kept : s ≡ t = ground (arith, p, e) in
            (ap (λ (o : Owner). o.object.meta.uid) (sym same), λ q h. ap (client.get q) (sym kept))
        | inr p ↦
            let w : client.update_status new s ≡ (ok saved, t) = ground (arith, p, e) in
            (
              laws.same_uid new saved s (ap (λ x. x.0) w),
              λ q h. ap (λ x. client.get q x.1) (sym w) ∙ laws.keeps new q s h,
            )
      ]

  -- If updating the references of an owner ends without an error, each object that it refers to has
  -- a back reference with the UID of the owner in the cluster. The references of the objects at hand
  -- were those in the cluster before, and the client does what it is documented to do.
  pub back_references_written :
      (s t : S)
      → All (IsLoaded client s) refs
      → update_references client owner_references owner refs s ≡ done (none, t)
      → All (IsReferring client owner.object.meta.uid t) refs
  unfolding diff_refs
  back_references_written s t loaded e =
      elim (status_before_references client owner_references owner refs s t none e) [
        | inl (x, p, _) ↦ absurd (ground (arith, p))
        | inr (u, deleted, inl (x, p, _)) ↦ absurd (ground (arith, p))
        | inr (u, deleted, inr (saved, v, status, added)) ↦
            let (uid, kept) = save_status-keeps saved u v status in
            let pending =
              All-map refs
                (λ q h p. (
                  p.0,
                  kept q h
                      ∙ delete_old_refs-others client refs laws owner.object _ q s u deleted
                          (diff_refs-others refs owner.status_references q h)
                      ∙ p.1,
                  λ has. ap (has_uid saved.object.meta.uid) p.2 ∙ has,
                ))
                loaded in
            subst (λ i. All (IsReferring client i t) refs) uid
              (add_new_refs-Referring client refs laws saved.object refs v t added pending)
      ]
