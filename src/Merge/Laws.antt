-- ===== src/Merge/Laws.antt =====
-- The lists of pkg/merge as maps from names.
use image_registry_operator.Prelude.{
  ◌≡◌, ◌≢◌, refl, Option, none, some, List, [], ◌∷◌, if◌then◌else◌, arith, All, Bool-cases, inl,
  inr, subst, sym, ◌∙◌,
}
use mathlib.Core.Bool.{false≢true}
use image_registry_operator.Go.Text.{Text, text_eq, text_eq_iff}
use image_registry_operator.Merge.{Named, add_container, add_volume, del_volume}

module _ {A : Type 0} where
  -- The first entry of a name, which is the one that Kubernetes takes.
  abbrev pub named : Text → List (Named A) → Option (Named A)
  named k [] = none
  named k (c ∷ cs) = if text_eq c.name k then some c else named k cs

  -- No two entries share a name.
  abbrev pub IsDistinct : List (Named A) → Type 0
  IsDistinct [] = Unit
  IsDistinct (c ∷ cs) = All (λ d. c.name ≢ d.name) cs × IsDistinct cs

  abbrev Misses : Text → List (Named A) → Type 0
  Misses k = All (λ d. k ≢ d.name)

  add_volume-Misses :
      (k : Text) (vs : List (Named A)) (v : Named A)
      → k ≢ v.name
      → Misses k vs
      → Misses k (add_volume vs v)
  unfolding add_volume
  add_volume-Misses k [] v h m = (h, tt)
  add_volume-Misses k (w ∷ vs) v h m = elim (Bool-cases (text_eq w.name v.name)) [
    | inl e ↦ rw e (h, m.1)
    | inr e ↦ rw e (m.0, add_volume-Misses k vs v h m.1)
  ]

  named-add_volume :
      (vs : List (Named A)) (v : Named A) (k : Text)
      → named k (add_volume vs v) ≡ (if text_eq v.name k then some v else named k vs)
  unfolding add_volume
  named-add_volume [] v k = refl
  named-add_volume (w ∷ vs) v k = ground (
    arith,
    named-add_volume vs v k,
    text_eq_iff w.name v.name,
    text_eq_iff w.name k,
    text_eq_iff v.name k,
  )

  add_volume-IsDistinct :
      (vs : List (Named A)) (v : Named A) → IsDistinct vs → IsDistinct (add_volume vs v)
  unfolding add_volume
  add_volume-IsDistinct [] v d = (tt, tt)
  add_volume-IsDistinct (w ∷ vs) v d = elim (Bool-cases (text_eq w.name v.name)) [
    | inl e ↦ rw e (subst (λ k. Misses k vs) ((text_eq_iff w.name v.name).0 e) d.0, d.1)
    | inr e ↦ rw e (
      add_volume-Misses w.name vs v (λ p. false≢true (sym e ∙ (text_eq_iff w.name v.name).1 p)) d.0,
      add_volume-IsDistinct vs v d.1,
    )
  ]

  -- AddVolume is an upsert by name: the pod has the new volume under its name and every other
  -- volume as before, and if no two volumes shared a name then none do afterwards.
  pub add_volume_upserts :
      (vs : List (Named A)) (v : Named A) (k : Text)
      → (named k (add_volume vs v) ≡ (if text_eq v.name k then some v else named k vs))
        × (IsDistinct vs → IsDistinct (add_volume vs v))
  add_volume_upserts vs v k = (named-add_volume vs v k, add_volume-IsDistinct vs v)

  -- AddContainer does to the containers what AddVolume does to the volumes.
  add_container-eq-add_volume :
      (cs : List (Named A)) (c : Named A) → add_container cs c ≡ add_volume cs c
  unfolding add_container add_volume
  add_container-eq-add_volume [] c = refl
  add_container-eq-add_volume (d ∷ cs) c = rw (add_container-eq-add_volume cs c)

  add_container_twice :
      (cs : List (Named A)) (c : Named A)
      → add_container (add_container cs c) c ≡ add_container cs c
  unfolding add_container
  add_container_twice [] c = ground (arith, text_eq_iff c.name c.name)
  add_container_twice (d ∷ cs) c =
      ground (arith, add_container_twice cs c, text_eq_iff c.name c.name)

  -- AddContainer is an upsert by name: the pod has the new container under its name and every
  -- other as before, names stay distinct, and doing it twice is doing it once.
  pub add_container_upserts :
      (cs : List (Named A)) (c : Named A) (k : Text)
      → (named k (add_container cs c) ≡ (if text_eq c.name k then some c else named k cs))
        × (IsDistinct cs → IsDistinct (add_container cs c))
        × (add_container (add_container cs c) c ≡ add_container cs c)
  add_container_upserts cs c k = (
    rw (add_container-eq-add_volume cs c) (named-add_volume cs c k),
    rw (add_container-eq-add_volume cs c) (add_volume-IsDistinct cs c),
    add_container_twice cs c,
  )

  -- DelVolume takes out what AddVolume put in, if the pod had no volume of that name.
  pub del_volume-add_volume :
      (vs : List (Named A)) (v : Named A)
      → named v.name vs ≡ none
      → del_volume (add_volume vs v) v.name ≡ vs
  unfolding add_volume del_volume
  del_volume-add_volume [] v h = ground (arith, text_eq_iff v.name v.name)
  del_volume-add_volume (w ∷ vs) v h = ground (arith, del_volume-add_volume vs v)
