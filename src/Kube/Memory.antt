-- ===== src/Kube/Memory.antt =====
-- An API over a list of objects in memory, for the tests: the laws of `Api` hold of it, and no call
-- but those on missing or existing objects fails.
use image_registry_operator.Prelude.{
  ◌≡◌, ◌↔◌, refl, Bool, true, ◌&&◌, List, [], ◌∷◌, none, if◌then◌else◌, arith,
}
use mathlib.Core.Path.{subst₂}
use image_registry_operator.Go.Text.{text, text_eq, text_eq_iff}
use image_registry_operator.Go.Error.{not_found, failure, Result, ok, err}
use image_registry_operator.Kube.Meta.{NamespacedName}
use image_registry_operator.Kube.Api.{Api, Wrote, Writes}

abbrev pub key_eq : NamespacedName → NamespacedName → Bool
key_eq a b = text_eq a.namespace b.namespace && text_eq a.name b.name

module _ {Obj : Type 0} (key : Obj → NamespacedName) where
  unfoldable pub find : NamespacedName → List Obj → Result Obj
  find k [] = err (not_found (text "not found"))
  find k (o ∷ s) = if key_eq (key o) k then ok o else find k s

  unfoldable pub put : Obj → List Obj → List Obj
  put o [] = o ∷ []
  put o (p ∷ s) = if key_eq (key p) (key o) then o ∷ s else p ∷ put o s

  unfoldable pub drop : NamespacedName → List Obj → List Obj
  drop k [] = []
  drop k (o ∷ s) = let rest = drop k s in if key_eq (key o) k then rest else o ∷ rest

  abbrev pub create_in : Obj → List Obj → Result Obj × List Obj
  create_in o s = elim (find (key o) s) [
    | ok old ↦ (err (failure (text "already exists")), s)
    | err e ↦ (ok o, put o s)
  ]

  abbrev pub update_in : Obj → List Obj → Result Obj × List Obj
  update_in o s = elim (find (key o) s) [ ok old ↦ (ok o, put o s) | err e ↦ (err e, s) ]

  abbrev pub memory : Api (List Obj) Obj
  memory = record {
    get = find;
    create = create_in;
    update = update_in;
    update_status = update_in;
    delete = λ o s. (none, drop (key o) s);
  }

  put-find :
      (k : NamespacedName) (o : Obj) (s : List Obj)
      → find k (put o s) ≡ (if key_eq (key o) k then ok o else find k s)
  unfolding find put
  put-find k o [] = refl
  put-find k o (p ∷ s) = ground (
    arith,
    put-find k o s,
    text_eq_iff (key p).namespace (key o).namespace,
    text_eq_iff (key p).name (key o).name,
    text_eq_iff (key p).namespace k.namespace,
    text_eq_iff (key p).name k.name,
    text_eq_iff (key o).namespace k.namespace,
    text_eq_iff (key o).name k.name,
  )

  pub key_eq_iff : (a b : NamespacedName) → (key_eq a b ≡ true) ↔ (a ≡ b)
  key_eq_iff a b = ground (arith, text_eq_iff a.namespace b.namespace, text_eq_iff a.name b.name)

  put-Wrote :
      (Same : Obj → Obj → Type 0) (o : Obj) (s : List Obj)
      → Same o o
      → Wrote memory key Same o o s (put o s)
  put-Wrote Same o s same = record {
    stored = rw (put-find (key o) o s, (key_eq_iff (key o) (key o)).1 refl);
    same = same;
    others = λ k h. ground (arith, put-find k o s, key_eq_iff (key o) k);
  }

  create_in_ok :
      (o o' : Obj) (s s' : List Obj) → create_in o s ≡ (ok o', s') → (o ≡ o') × (put o s ≡ s')
  create_in_ok o o' s s' e = ground arith

  update_in_ok :
      (o o' : Obj) (s s' : List Obj) → update_in o s ≡ (ok o', s') → (o ≡ o') × (put o s ≡ s')
  update_in_ok o o' s s' e = ground arith

  pub memory_writes : (Same : Obj → Obj → Type 0) → ((o : Obj) → Same o o) → Writes memory key Same
  memory_writes Same same = record {
    create_wrote = λ o o' s s' e.
        let (p, q) = create_in_ok o o' s s' e in
        subst₂ (λ x y. Wrote memory key Same o x s y) p q (put-Wrote Same o s (same o));
    update_wrote = λ o o' s s' e.
        let (p, q) = update_in_ok o o' s s' e in
        subst₂ (λ x y. Wrote memory key Same o x s y) p q (put-Wrote Same o s (same o));
  }
