-- ===== src/Backrefs/OwnerRefs.antt =====
-- pkg/backrefs/ownerrefs.go: back references as owner references. A panic is `panic` with its text.
use image_registry_operator.Prelude.{
  ℕ, ◌+◌, ◌≤◌, ◌≡◌, ◌≢◌, refl, sym, ◌∙◌, ap, subst, ◌⊎◌, inl, inr, Bool, true, false, not, ◌&&◌,
  Bool-cases, List, [], ◌∷◌, ◌++◌, if◌then◌else◌, any, All, arith,
}
use image_registry_operator.Go.Text.{Text, text, text_eq, text_eq_iff, is_empty}
use image_registry_operator.Go.Panic.{Panics, done, panic, ◌>>=◌, ◌>>◌}
use image_registry_operator.Kube.Meta.{ObjectMeta, OwnerReference}
pub mod Laws

-- The object that is referred to, with its group, version and kind.
pub record Object : Type 0 where
  pub meta : ObjectMeta
  pub api_version : Text
  pub kind : Text

unfoldable pub check_namespace : ObjectMeta → ObjectMeta → Panics (Unit {0})
check_namespace a b =
    if text_eq a.namespace b.namespace
    then done tt
    else panic (text "owner references across namespaces are not supported")

unfoldable pub check_kind : Text → Panics (Unit {0})
check_kind kind =
    if is_empty kind
    then panic (text "ref.kind is empty - did you fetch it before passing it to Add/DelReference?")
    else done tt

-- `equal`, behind its check of the kind.
unfoldable pub refers : OwnerReference → Object → Bool
refers ref o =
    text_eq ref.name o.meta.name
    && (text_eq ref.kind o.kind && text_eq ref.api_version o.api_version)

-- The references without the first that refers to the object, and whether there was one.
unfoldable pub del_first : List OwnerReference → Object → List OwnerReference × Bool
del_first [] o = ([], false)
del_first (ref ∷ refs) o =
    let (rest, found) = del_first refs o in
    if refers ref o then (refs, true) else (ref ∷ rest, found)

abbrev pub with_refs : ObjectMeta → List OwnerReference → ObjectMeta
with_refs m refs = record m { owner_references = refs }

-- The loop calls `equal`, and so checks the kind, only if there is a reference.
unfoldable pub check_each : List OwnerReference → Text → Panics (Unit {0})
check_each [] kind = done tt
check_each (ref ∷ refs) kind = check_kind kind

unfoldable pub del_reference : ObjectMeta → Object → Panics (ObjectMeta × Bool)
del_reference from to = do
  check_namespace from to.meta
  check_each from.owner_references to.kind
  let result = del_first from.owner_references to
  done (if result.1 then with_refs from result.0 else from, result.1)

abbrev pub reference_to : Object → OwnerReference
reference_to to = record {
  api_version = to.api_version;
  kind = to.kind;
  name = to.meta.name;
  uid = to.meta.uid;
  controller = false;
  block_owner_deletion = false;
}

unfoldable pub has_uid : Text → List OwnerReference → Bool
has_uid uid refs = any (λ ref. text_eq ref.uid uid) refs

-- The part behind the test of the UID.
unfoldable pub add_missing : ObjectMeta → Object → Panics (ObjectMeta × Bool)
add_missing from to = do
  cleaned ← del_reference from to
  check_kind to.kind
  done (with_refs cleaned.0 (cleaned.0.owner_references ++ reference_to to ∷ []), true)

unfoldable pub add_reference : ObjectMeta → Object → Panics (ObjectMeta × Bool)
add_reference from to = do
  check_namespace from to.meta
  let added = add_missing from to
  if has_uid to.meta.uid from.owner_references then done (from, false) else added
