-- ===== src/Kube/Api.antt =====
-- The calls of a controller-runtime client on objects of one kind, over a store that only these
-- calls change while a handler runs, and what the calls are documented to do.
use image_registry_operator.Prelude.{◌≡◌, ◌≢◌, Option}
use image_registry_operator.Go.Error.{Error, Result, ok}
use image_registry_operator.Kube.Meta.{NamespacedName}

-- A successful write returns the object as the server stored it, which the Go client writes over
-- the object that it was given.
pub record Api (S Obj : Type 0) : Type 0 where
  pub get : NamespacedName → S → Result Obj
  pub create : Obj → S → Result Obj × S
  pub update : Obj → S → Result Obj × S
  pub update_status : Obj → S → Result Obj × S
  pub delete : Obj → S → Option Error × S

-- A write of `o` went from `s` to `s'`: what is stored under its key has the content of `o`, and
-- all else stays. `Same` says when two objects have the same content, up to what the server sets.
pub record Wrote {S Obj : Type 0} (api : Api S Obj) (key : Obj → NamespacedName)
    (Same : Obj → Obj → Type 0) (o o' : Obj) (s s' : S) : Type 0 where
  pub stored : api.get (key o) s' ≡ ok o'
  pub same : Same o o'
  pub others : (k : NamespacedName) → k ≢ key o → api.get k s' ≡ api.get k s

-- What a successful create, update or status update does.
pub record Writes {S Obj : Type 0} (api : Api S Obj) (key : Obj → NamespacedName)
    (Same : Obj → Obj → Type 0) : Type 0 where
  pub create_wrote :
      (o o' : Obj) (s s' : S) → api.create o s ≡ (ok o', s') → Wrote api key Same o o' s s'
  pub update_wrote :
      (o o' : Obj) (s s' : S) → api.update o s ≡ (ok o', s') → Wrote api key Same o o' s s'
