-- ===== src/Backrefs/OwnerRefs/Laws.antt =====
-- pkg/backrefs/ownerrefs.go: what adding and deleting a reference does to the list.
use image_registry_operator.Prelude.{
  ◌≡◌, refl, sym, ◌∙◌, ap, subst, ◌⊎◌, inl, inr, Bool, true, false, Bool-cases, List, [], ◌∷◌, ◌++◌,
  if◌then◌else◌, any, arith, Has, Has-append_right,
}
use image_registry_operator.Go.Text.{text_eq_iff, Text, text, text_eq, text_eq_refl}
use image_registry_operator.Go.Panic.{Panics-cases, done, panic}
use image_registry_operator.Kube.Meta.{ObjectMeta, OwnerReference}
use image_registry_operator.Backrefs.OwnerRefs.{
  Object, check_namespace, check_kind, check_each, refers, del_first, with_refs, del_reference,
  reference_to, has_uid, add_missing, add_reference,
}

has_uid_last :
    (uid : Text) (refs : List OwnerReference) (r : OwnerReference)
    → text_eq r.uid uid ≡ true
    → has_uid uid (refs ++ r ∷ []) ≡ true
unfolding has_uid
has_uid_last uid [] r p = ground (arith, p)
has_uid_last uid (x ∷ refs) r p = ground (arith, has_uid_last uid refs r p)

add_missing-done :
    (from : ObjectMeta) (to : Object) (m : ObjectMeta) (b : Bool)
    → add_missing from to ≡ done (m, b)
    → (cleaned : ObjectMeta) × (found : Bool) × (del_reference from to ≡ done (cleaned, found))
      × (check_kind to.kind ≡ done tt)
      × (m ≡ with_refs cleaned (cleaned.owner_references ++ reference_to to ∷ []))
      × (b ≡ true)
unfolding add_missing
add_missing-done from to m b e = elim (Panics-cases (del_reference from to)) [
  | inl (t, p) ↦ absurd (ground (arith, p, e))
  | inr ((c, f), p) ↦ elim (Panics-cases (check_kind to.kind)) [
    | inl (t, q) ↦ absurd (ground (arith, p, q, e))
    | inr (tt, q) ↦ (c, f, p, q, ground (arith, p, q, e), ground (arith, p, q, e))
  ]
]

del_reference-keeps :
    (from : ObjectMeta) (to : Object) (m : ObjectMeta) (b : Bool)
    → del_reference from to ≡ done (m, b)
    → (check_namespace from to.meta ≡ done tt) × (m.namespace ≡ from.namespace)
unfolding del_reference
del_reference-keeps from to m b e = elim (Panics-cases (check_namespace from to.meta)) [
  | inl (t, p) ↦ absurd (ground (arith, p, e))
  | inr (tt, p) ↦ elim (Panics-cases (check_each from.owner_references to.kind)) [
    | inl (t, q) ↦ absurd (ground (arith, p, q, e))
    | inr (tt, q) ↦ elim (Bool-cases (del_first from.owner_references to).1) [
      | inl r ↦ (p, ground (arith, p, q, r, e))
      | inr r ↦ (p, ground (arith, p, q, r, e))
    ]
  ]
]

add_reference-done :
    (from : ObjectMeta) (to : Object) (m : ObjectMeta) (b : Bool)
    → add_reference from to ≡ done (m, b)
    → (check_namespace from to.meta ≡ done tt)
      × (((has_uid to.meta.uid from.owner_references ≡ true) × (m ≡ from) × (b ≡ false))
          ⊎ (add_missing from to ≡ done (m, b)))
unfolding add_reference
add_reference-done from to m b e = elim (Panics-cases (check_namespace from to.meta)) [
  | inl (t, p) ↦ absurd (ground (arith, p, e))
  | inr (tt, p) ↦ elim (Bool-cases (has_uid to.meta.uid from.owner_references)) [
    | inl r ↦ (p, ground (arith, p, r, e))
    | inr r ↦ (p, ground (arith, p, r, e))
  ]
]

pub add_reference-found :
    (from : ObjectMeta) (to : Object)
    → check_namespace from to.meta ≡ done tt
    → has_uid to.meta.uid from.owner_references ≡ true
    → add_reference from to ≡ done (from, false)
unfolding add_reference
add_reference-found from to p r = ground (arith, p, r)

check_namespace-same :
    (a b c : ObjectMeta) → a.namespace ≡ b.namespace → check_namespace a c ≡ check_namespace b c
unfolding check_namespace
check_namespace-same a b c p =
    ap
      (λ ns.
        if text_eq ns c.namespace
        then done tt
        else panic (text "owner references across namespaces are not supported"))
      p

-- If AddReference does not panic, the object has a reference with the other's UID, and adding it
-- again changes nothing.
pub add_reference_idempotent :
    (from : ObjectMeta) (to : Object) (m : ObjectMeta) (b : Bool)
    → add_reference from to ≡ done (m, b)
    → (has_uid to.meta.uid m.owner_references ≡ true) × (add_reference m to ≡ done (m, false))
add_reference_idempotent from to m b e =
    let (p, cases) = add_reference-done from to m b e in
    elim cases [
      | inl (r, s, _) ↦
          let h = subst (λ x. has_uid to.meta.uid x.owner_references ≡ true) (sym s) r in
          (h, add_reference-found m to (ap (λ x. check_namespace x to.meta) s ∙ p) h)
      | inr q ↦
          let (c, f, del, kind, s, _) = add_missing-done from to m b q in
          let h =
            subst (λ x. has_uid to.meta.uid x.owner_references ≡ true) (sym s)
              (has_uid_last to.meta.uid c.owner_references (reference_to to)
                (text_eq_refl to.meta.uid)) in
          let same =
            ap (λ (x : ObjectMeta). x.namespace) s ∙ (del_reference-keeps from to c f del).1 in
          (h, add_reference-found m to (check_namespace-same m from to.meta same ∙ p) h)
    ]

del_first_last :
    (refs : List OwnerReference) (r : OwnerReference) (to : Object)
    → any (λ ref. refers ref to) refs ≡ false
    → refers r to ≡ true
    → del_first (refs ++ r ∷ []) to ≡ (refs, true)
unfolding del_first
del_first_last [] r to none p = ground (arith, p)
del_first_last (x ∷ refs) r to none p =
    ground (arith, p, none, del_first_last refs r to (ground (arith, none)) p)

del_first_none :
    (refs : List OwnerReference) (to : Object)
    → any (λ ref. refers ref to) refs ≡ false
    → del_first refs to ≡ (refs, false)
unfolding del_first
del_first_none [] to none = refl
del_first_none (x ∷ refs) to none =
    ground (arith, none, del_first_none refs to (ground (arith, none)))

reference_to-refers : (to : Object) → refers (reference_to to) to ≡ true
unfolding refers
reference_to-refers to =
    ground (arith, text_eq_refl to.meta.name, text_eq_refl to.kind, text_eq_refl to.api_version)

check_each_last :
    (refs : List OwnerReference) (r : OwnerReference) (kind : Text)
    → check_each (refs ++ r ∷ []) kind ≡ check_kind kind
unfolding check_each
check_each_last [] r kind = refl
check_each_last (x ∷ refs) r kind = refl

del_reference_none :
    (from : ObjectMeta) (to : Object) (c : ObjectMeta) (f : Bool)
    → any (λ ref. refers ref to) from.owner_references ≡ false
    → del_reference from to ≡ done (c, f)
    → c ≡ from
unfolding del_reference
del_reference_none from to c f none e =
    let d = del_first_none from.owner_references to none in
    elim (Panics-cases (check_namespace from to.meta)) [
      | inl (t, p) ↦ absurd (ground (arith, p, e))
      | inr (tt, p) ↦ elim (Panics-cases (check_each from.owner_references to.kind)) [
        | inl (t, q) ↦ absurd (ground (arith, p, q, e))
        | inr (tt, q) ↦ ground (arith, p, q, d, e)
      ]
    ]

del_reference_last :
    (from : ObjectMeta) (to : Object)
    → any (λ ref. refers ref to) from.owner_references ≡ false
    → check_namespace from to.meta ≡ done tt
    → check_kind to.kind ≡ done tt
    → del_reference (with_refs from (from.owner_references ++ reference_to to ∷ [])) to
      ≡ done (from, true)
unfolding del_reference
del_reference_last from to none p q =
    let m = with_refs from (from.owner_references ++ reference_to to ∷ []) in
    let p' = check_namespace-same m from to.meta refl ∙ p in
    let q' = check_each_last from.owner_references (reference_to to) to.kind ∙ q in
    let d =
      del_first_last from.owner_references (reference_to to) to none (reference_to-refers to) in
    rw (p', q', d) refl

-- A reference that was added to an object without a reference of that name, kind and version is
-- taken away by DelReference, which leaves the object as it was.
pub del_reference-add_reference :
    (from : ObjectMeta) (to : Object) (m : ObjectMeta)
    → any (λ ref. refers ref to) from.owner_references ≡ false
    → add_reference from to ≡ done (m, true)
    → del_reference m to ≡ done (from, true)
del_reference-add_reference from to m none e =
    let (p, cases) = add_reference-done from to m true e in
    elim cases [
      | inl (_, _, f) ↦ absurd (ground (arith, f))
      | inr q ↦
          let (c, f, del, kind, s, _) = add_missing-done from to m true q in
          let same = del_reference_none from to c f none del in
          ap (λ x. del_reference x to)
            (s ∙ ap (λ x. with_refs x (x.owner_references ++ reference_to to ∷ [])) same)
          ∙ del_reference_last from to none p kind
    ]

check_namespace-eq : (a b : ObjectMeta) → check_namespace a b ≡ done tt → a.namespace ≡ b.namespace
unfolding check_namespace
check_namespace-eq a b e = ground (arith, e, text_eq_iff a.namespace b.namespace)

-- A reference that AddReference reports to have added is there, and its object is in the namespace of
-- the owner.
pub add_reference-adds :
    (from : ObjectMeta) (to : Object) (m : ObjectMeta)
    → add_reference from to ≡ done (m, true)
    → Has (reference_to to) m.owner_references × (m.namespace ≡ to.meta.namespace)
add_reference-adds from to m e =
    let (p, cases) = add_reference-done from to m true e in
    elim cases [
      | inl (r, s, f) ↦ absurd (ground (arith, f))
      | inr q ↦
          let (cleaned, found, d, k, same, t) = add_missing-done from to m true q in
          let kept = (del_reference-keeps from to cleaned found d).1 in
          (
            subst (λ (x : ObjectMeta). Has (reference_to to) x.owner_references) (sym same)
                (Has-append_right (reference_to to) cleaned.owner_references (reference_to to ∷ [])
                  (inl refl)),
            ap (λ (x : ObjectMeta). x.namespace) same ∙ kept ∙ check_namespace-eq from to.meta p,
          )
    ]

-- Adding and deleting references change nothing else.
pub del_reference-same :
    (from : ObjectMeta) (to : Object) (m : ObjectMeta) (b : Bool)
    → del_reference from to ≡ done (m, b)
    → m ≡ with_refs from m.owner_references
unfolding del_reference
del_reference-same from to m b e = elim (Panics-cases (check_namespace from to.meta)) [
  | inl (t, p) ↦ absurd (ground (arith, p, e))
  | inr (tt, p) ↦ elim (Panics-cases (check_each from.owner_references to.kind)) [
    | inl (t, q) ↦ absurd (ground (arith, p, q, e))
    | inr (tt, q) ↦ elim (Bool-cases (del_first from.owner_references to).1) [
      | inl r ↦
          let same : with_refs from (del_first from.owner_references to).0 ≡ m =
            ground (arith, p, q, r, e) in
          subst (λ x. x ≡ with_refs from x.owner_references) same refl
      | inr r ↦
          let same : from ≡ m = ground (arith, p, q, r, e) in
          subst (λ x. x ≡ with_refs from x.owner_references) same refl
    ]
  ]
]

pub add_reference-same :
    (from : ObjectMeta) (to : Object) (m : ObjectMeta) (b : Bool)
    → add_reference from to ≡ done (m, b)
    → m ≡ with_refs from m.owner_references
add_reference-same from to m b e = elim (add_reference-done from to m b e).1 [
  | inl (_, same, _) ↦ subst (λ x. x ≡ with_refs from x.owner_references) (sym same) refl
  | inr q ↦
      let (c, f, del, kind, same, _) = add_missing-done from to m b q in
      same
      ∙ ap (λ x. with_refs x (c.owner_references ++ reference_to to ∷ []))
          (del_reference-same from to c f del)
      ∙ ap (with_refs from) (sym (ap (λ (x : ObjectMeta). x.owner_references) same))
]

-- Where nothing was added, the reference was there.
pub add_reference-unchanged :
    (from : ObjectMeta) (to : Object) (m : ObjectMeta)
    → add_reference from to ≡ done (m, false)
    → has_uid to.meta.uid from.owner_references ≡ true
add_reference-unchanged from to m e = elim (add_reference-done from to m false e).1 [
  | inl (there, _, _) ↦ there
  | inr q ↦
      let (c, f, del, kind, same, changed) = add_missing-done from to m false q in
      absurd (ground (arith, changed))
]
