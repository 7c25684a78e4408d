-- ===== src/Backrefs/Handler.antt =====
-- pkg/backrefs/refhandler.go: the references of an owner, in its status and as back references on the
-- objects that it refers to.
use image_registry_operator.Prelude.{
  Bool, true, false, not, ◌&&◌, Option, none, some, List, [], ◌∷◌, ◌++◌, if◌then◌else◌, any, select,
}
use image_registry_operator.Go.Text.{Text, text_eq}
use image_registry_operator.Go.Error.{Error, Result, ok, err, is_not_found}
use image_registry_operator.Go.Panic.{Panics, done, panic, ◌>>=◌}
use image_registry_operator.Kube.Meta.{ObjectMeta}
use image_registry_operator.Backrefs.OwnerRefs.{Object, add_reference, del_reference}
pub mod Quiet
pub mod Steps
pub mod Written

-- An object that is referred to from a status, with the name of its Go type.
pub record Ref : Type 0 where
  pub go_type : Text
  pub meta : ObjectMeta

-- An owner with the references in its status.
pub record Owner : Type 0 where
  pub object : Object
  pub status_references : List Ref

-- `BackReferenceStrategy`, and the one of `OwnerReferences`.
pub record Strategy : Type 0 where
  pub add : ObjectMeta → Object → Panics (ObjectMeta × Bool)
  pub del : ObjectMeta → Object → Panics (ObjectMeta × Bool)

abbrev pub owner_references : Strategy
owner_references = record { add = add_reference; del = del_reference }

-- The client's calls on the objects of any kind, over a store.
pub record Client (S : Type 0) : Type 0 where
  pub get : Ref → S → Result Ref
  pub update : Ref → S → Result Ref × S
  pub update_status : Owner → S → Result Owner × S

unfoldable pub ref_key : Ref → Text
ref_key ref = ref.go_type ++ b':' ∷ (ref.meta.namespace ++ b'/' ∷ ref.meta.name)

-- Whether the keys of the references have the key of this one.
unfoldable pub has_ref_key : List Ref → Ref → Bool
has_ref_key refs ref = any (λ r. text_eq (ref_key r) (ref_key ref)) refs

-- The references to delete and those to add.
unfoldable pub diff_refs : List Ref → List Ref → List Ref × List Ref
diff_refs old_refs new_refs = (
  select (λ r. not (has_ref_key new_refs r)) old_refs,
  select (λ r. not (has_ref_key old_refs r)) new_refs,
)

abbrev pub is_nil {ℓ} : {A : Type ℓ} → List A → Bool
is_nil [] = true
is_nil (x ∷ xs) = false

module _ {S : Type 0} (client : Client S) (strategy : Strategy) where
  -- An object is written only if its references changed.
  abbrev pub write_changed : Ref → ObjectMeta × Bool → S → Result Ref × S
  write_changed ref (meta, changed) s =
      if changed then client.update (record ref { meta = meta }) s else (ok ref, s)

  unfoldable pub add_new_refs : Object → List Ref → S → Panics (Option Error × S)
  add_new_refs owner [] s = done (none, s)
  add_new_refs owner (ref ∷ refs) s = do
    added ← strategy.add ref.meta owner
    let w = write_changed ref added s
    elim w.0 [ ok saved ↦ add_new_refs owner refs w.1 | err e ↦ done (some e, w.1) ]

  -- What is not found needs no update.
  unfoldable pub delete_old_refs : Object → List Ref → S → Panics (Option Error × S)
  delete_old_refs owner [] s = done (none, s)
  delete_old_refs owner (ref ∷ refs) s = elim (client.get ref s) [
    | err e ↦ if is_not_found e then delete_old_refs owner refs s else done (some e, s)
    | ok found ↦ do
      deleted ← strategy.del found.meta owner
      let w = write_changed found deleted s
      elim w.0 [
        | ok saved ↦ delete_old_refs owner refs w.1
        | err e ↦ if is_not_found e then delete_old_refs owner refs w.1 else done (some e, w.1)
      ]
  ]

  -- The status, which must list the references before the back references are set.
  abbrev pub save_status : Owner → List Ref → List Ref × List Ref → S → Result Owner × S
  save_status owner refs (del_refs, add_refs) s =
      if is_nil del_refs && is_nil add_refs
      then (ok owner, s)
      else client.update_status (record owner { status_references = refs }) s

  abbrev pub save_and_add :
      Owner → List Ref → List Ref × List Ref → Option Error × S → Panics (Option Error × S)
  save_and_add owner refs diff (some e, s) = done (some e, s)
  save_and_add owner refs diff (none, s) =
      let w = save_status owner refs diff s in
      elim w.0 [ ok saved ↦ add_new_refs saved.object refs w.1 | err e ↦ done (some e, w.1) ]

  unfoldable pub update_references : Owner → List Ref → S → Panics (Option Error × S)
  update_references owner refs s = do
    let diff = diff_refs owner.status_references refs
    deleted ← delete_old_refs owner.object diff.0 s
    save_and_add owner refs diff deleted
