-- ===== src/Backrefs/Handler/Steps.antt =====
-- What each step of the loops over the references does to the objects (`addNewRefs` and `deleteOldRefs` of
-- pkg/backrefs/refhandler.go), with a client that does what is documented.
use image_registry_operator.Prelude.{
  ◌≡◌, ◌≢◌, refl, sym, ap, ◌∙◌, subst, inl, inr, ◌⊎◌, Bool, true, false, Bool-cases, none, List, [],
  ◌∷◌, All, All-map, Has, arith,
}
use image_registry_operator.Go.Text.{Text, text_eq, text_eq_iff}
use image_registry_operator.Go.Error.{ok, Result-cases, is_not_found}
use image_registry_operator.Go.Panic.{Panics-cases, done}
use image_registry_operator.Kube.Meta.{ObjectMeta}
use image_registry_operator.Backrefs.OwnerRefs.{
  Object, has_uid, with_refs, add_reference, del_reference,
}
use image_registry_operator.Backrefs.OwnerRefs.Laws.{
  add_reference_idempotent, add_reference-unchanged, add_reference-same, del_reference-same,
}
use image_registry_operator.Backrefs.Handler.{
  Ref, Owner, Client, owner_references, ref_key, add_new_refs, delete_old_refs, write_changed,
}

-- What the calls of a client are documented to do: `Get` finds the object under a key, an update
-- without an error stores the references, and no update changes an object under another key. A status
-- update of the owner keeps its UID and changes none of the objects that it refers to.
pub record ClientLaws {S : Type 0} (client : Client S) (refs : List Ref) : Type 0 where
  pub get_key : (q r : Ref) (s : S) → client.get q s ≡ ok r → ref_key r ≡ ref_key q
  pub stored :
      (q r saved : Ref) (s : S)
      → (client.update r s).0 ≡ ok saved
      → ref_key q ≡ ref_key r
      → (m : Ref) × (client.get q (client.update r s).1 ≡ ok m)
        × (m.meta.owner_references ≡ r.meta.owner_references)
  pub others :
      (q r : Ref) (s : S)
      → ref_key q ≢ ref_key r
      → client.get q (client.update r s).1 ≡ client.get q s
  pub same_uid :
      (o saved : Owner) (s : S)
      → (client.update_status o s).0 ≡ ok saved
      → saved.object.meta.uid ≡ o.object.meta.uid
  pub keeps :
      (o : Owner) (q : Ref) (s : S)
      → Has q refs
      → client.get q (client.update_status o s).1 ≡ client.get q s

module _ {S : Type 0} (client : Client S) where
  -- The stored object has a back reference with the UID.
  abbrev pub IsReferring : Text → S → Ref → Type 0
  IsReferring uid s r =
      (m : Ref) × (client.get r s ≡ ok m) × (has_uid uid m.meta.owner_references ≡ true)

  -- The stored object has the references of the one at hand.
  abbrev pub IsLoaded : S → Ref → Type 0
  IsLoaded s r =
      (m : Ref) × (client.get r s ≡ ok m) × (m.meta.owner_references ≡ r.meta.owner_references)

  -- It has the back reference if the one at hand has it.
  abbrev pub IsPending : Text → S → Ref → Type 0
  IsPending uid s r =
      (m : Ref) × (client.get r s ≡ ok m)
      × (has_uid uid r.meta.owner_references ≡ true → has_uid uid m.meta.owner_references ≡ true)

  -- An object is left as it is, or has the back reference.
  abbrev Progress : Text → S → S → Type 0
  Progress uid s t = (q : Ref) → (client.get q t ≡ client.get q s) ⊎ IsReferring uid t q

  module _ (uid : Text) (s t : S) (steps : Progress uid s t) (q : Ref) where
    Progress-Referring : IsReferring uid s q → IsReferring uid t q
    Progress-Referring (m, there, has) = elim (steps q) [
      | inl same ↦ (m, same ∙ there, has)
      | inr back ↦ back
    ]

    Progress-Pending : IsPending uid s q → IsPending uid t q
    Progress-Pending (m, there, has) = elim (steps q) [
      | inl same ↦ (m, same ∙ there, has)
      | inr (x, found, back) ↦ (x, found, λ _. back)
    ]

-- A change of the references keeps the key.
ref_key-same :
    (r : Ref) (m : ObjectMeta)
    → m ≡ with_refs r.meta m.owner_references
    → ref_key (record r { meta = m }) ≡ ref_key r
unfolding ref_key
ref_key-same r m same = ap (λ x. ref_key (record r { meta = x })) same

module _ {S : Type 0} (client : Client S) (refs : List Ref) (laws : ClientLaws client refs)
    (owner : Object) where
  update-Progress :
      (r saved : Ref) (s : S)
      → (client.update r s).0 ≡ ok saved
      → has_uid owner.meta.uid r.meta.owner_references ≡ true
      → Progress client owner.meta.uid s (client.update r s).1
  update-Progress r saved s e has q = elim (Bool-cases (text_eq (ref_key q) (ref_key r))) [
    | inl p ↦
        let key : ref_key q ≡ ref_key r = ground (arith, p, text_eq_iff (ref_key q) (ref_key r)) in
        let (m, there, same) = laws.stored q r saved s e key in
        inr (m, there, ap (has_uid owner.meta.uid) same ∙ has)
    | inr p ↦ inl (laws.others q r s (ground (arith, p, text_eq_iff (ref_key q) (ref_key r))))
  ]

  -- A step of the loop over the new references.
  add-Progress :
      (r saved : Ref) (m : ObjectMeta) (b : Bool) (s : S)
      → add_reference r.meta owner ≡ done (m, b)
      → (write_changed client owner_references r (m, b) s).0 ≡ ok saved
      → Progress client owner.meta.uid s (write_changed client owner_references r (m, b) s).1
        × (IsPending client owner.meta.uid s r
            → IsReferring client owner.meta.uid
                (write_changed client owner_references r (m, b) s).1
                r)
  add-Progress r saved m false s e w =
      (λ q. inl refl, λ p. (p.0, p.1, p.2 (add_reference-unchanged r.meta owner m e)))
  add-Progress r saved m true s e w =
      let has = (add_reference_idempotent r.meta owner m true e).0 in
      let key = ref_key-same r m (add_reference-same r.meta owner m true e) in
      (
        update-Progress (record r { meta = m }) saved s w has,
        λ p.
            let (x, there, same) = laws.stored r (record r { meta = m }) saved s w (sym key) in
            (x, there, ap (has_uid owner.meta.uid) same ∙ has),
      )

  -- The step in front of the others.
  add_new_refs-cons :
      (r : Ref) (rs : List Ref) (s t : S)
      → add_new_refs client owner_references owner (r ∷ rs) s ≡ done (none, t)
      → (u : S) × Progress client owner.meta.uid s u
        × (IsPending client owner.meta.uid s r → IsReferring client owner.meta.uid u r)
        × (add_new_refs client owner_references owner rs u ≡ done (none, t))
  unfolding add_new_refs
  add_new_refs-cons r rs s t e = elim (Panics-cases (add_reference r.meta owner)) [
    | inl (x, p) ↦ absurd (ground (arith, p, e))
    | inr ((m, b), p) ↦
        let w = write_changed client owner_references r (m, b) s in
        elim (Result-cases w.0) [
          | inr (x, q) ↦ absurd (ground (arith, p, q, e))
          | inl (saved, q) ↦
              let (steps, back) = add-Progress r saved m b s p q in
              (w.1, steps, back, ground (arith, p, q, e))
        ]
  ]

  add_new_refs-keeps :
      (rs : List Ref) (s t : S) (q : Ref)
      → add_new_refs client owner_references owner rs s ≡ done (none, t)
      → IsReferring client owner.meta.uid s q
      → IsReferring client owner.meta.uid t q
  unfolding add_new_refs
  add_new_refs-keeps [] s t q e h =
      let same : s ≡ t = ground (arith, e) in
      subst (λ x. IsReferring client owner.meta.uid x q) same h
  add_new_refs-keeps (r ∷ rs) s t q e h =
      let (u, steps, back, rest) = add_new_refs-cons r rs s t e in
      add_new_refs-keeps rs u t q rest (Progress-Referring client owner.meta.uid s u steps q h)

  pub add_new_refs-Referring :
      (rs : List Ref) (s t : S)
      → add_new_refs client owner_references owner rs s ≡ done (none, t)
      → All (IsPending client owner.meta.uid s) rs
      → All (IsReferring client owner.meta.uid t) rs
  add_new_refs-Referring [] s t e all = tt
  add_new_refs-Referring (r ∷ rs) s t e all =
      let (u, steps, back, rest) = add_new_refs-cons r rs s t e in
      (
        add_new_refs-keeps rs u t r rest (back all.0),
        add_new_refs-Referring rs u t rest
            (All-map rs (λ q _ p. Progress-Pending client owner.meta.uid s u steps q p) all.1),
      )

  -- A step of the loop over the old references leaves the objects under other keys.
  write-others :
      (r q : Ref) (m : ObjectMeta) (b : Bool) (s : S)
      → del_reference r.meta owner ≡ done (m, b)
      → ref_key q ≢ ref_key r
      → client.get q (write_changed client owner_references r (m, b) s).1 ≡ client.get q s
  write-others r q m false s e other = refl
  write-others r q m true s e other =
      let key = ref_key-same r m (del_reference-same r.meta owner m true e) in
      laws.others q (record r { meta = m }) s (λ p. other (p ∙ key))

  pub delete_old_refs-others :
      (ds : List Ref) (q : Ref) (s t : S)
      → delete_old_refs client owner_references owner ds s ≡ done (none, t)
      → All (λ d. ref_key q ≢ ref_key d) ds
      → client.get q t ≡ client.get q s
  unfolding delete_old_refs
  delete_old_refs-others [] q s t e others = ap (client.get q) (ground (arith, e))
  delete_old_refs-others (d ∷ ds) q s t e others = elim (Result-cases (client.get d s)) [
    | inr (x, p) ↦ elim (Bool-cases (is_not_found x)) [
      | inl h ↦ delete_old_refs-others ds q s t (ground (arith, p, h, e)) others.1
      | inr h ↦ absurd (ground (arith, p, h, e))
    ]
    | inl (r, p) ↦ elim (Panics-cases (del_reference r.meta owner)) [
      | inl (x, h) ↦ absurd (ground (arith, p, h, e))
      | inr ((m, b), h) ↦
          let w = write_changed client owner_references r (m, b) s in
          let same = write-others r q m b s h (λ k. others.0 (k ∙ laws.get_key d r s p)) in
          elim (Result-cases w.0) [
            | inl (saved, k) ↦
                delete_old_refs-others ds q w.1 t (ground (arith, p, h, k, e)) others.1 ∙ same
            | inr (x, k) ↦ elim (Bool-cases (is_not_found x)) [
              | inl n ↦
                  delete_old_refs-others ds q w.1 t (ground (arith, p, h, k, n, e)) others.1 ∙ same
              | inr n ↦ absurd (ground (arith, p, h, k, n, e))
            ]
          ]
    ]
  ]
