-- ===== src/Tests/Backrefs.antt =====
-- A cluster in memory with the objects that a build environment refers to.
use image_registry_operator.Prelude.{
  ◌≡◌, refl, sym, ◌∙◌, ap, Bool-cases, inl, inr, none, List, [], ◌∷◌, All, arith,
}
use image_registry_operator.Go.Text.{Text, text, text_eq, is_empty}
use image_registry_operator.Go.Error.{ok, Result-cases}
use image_registry_operator.Go.Panic.{done}
use image_registry_operator.Kube.Meta.{new_meta, ObjectMeta, NamespacedName}
use image_registry_operator.Kube.Api.{Writes}
use image_registry_operator.Kube.Memory.{
  find, put, update_in, memory, memory_writes, key_eq, key_eq_iff,
}
use image_registry_operator.Backrefs.OwnerRefs.{
  Object, add_reference, add_missing, del_reference, check_namespace, check_kind, check_each,
  del_first, reference_to, has_uid, refers,
}
use image_registry_operator.Backrefs.Handler.{
  Ref, Owner, Client, owner_references, ref_key, has_ref_key, diff_refs, add_new_refs,
  delete_old_refs, update_references,
}
use image_registry_operator.Backrefs.Handler.Steps.{ClientLaws, IsReferring, IsLoaded}
use image_registry_operator.Backrefs.Handler.Written.{back_references_written}

abbrev key : Ref → NamespacedName
key r = record { namespace = ref_key r; name = [] }

abbrev client : Client (List Ref)
client = record {
  get = λ r s. find key (key r) s;
  update = update_in key;
  update_status = λ o s. (ok o, s);
}

find-key : (k : NamespacedName) (r : Ref) (s : List Ref) → find key k s ≡ ok r → key r ≡ k
unfolding find
find-key k r [] e = absurd (ground (arith, e))
find-key k r (x ∷ s) e = elim (Bool-cases (key_eq (key x) k)) [
  | inl p ↦
      let same : x ≡ r = ground (arith, p, e) in
      ap key (sym same) ∙ ground (arith, p, key_eq_iff key (key x) k)
  | inr p ↦ find-key k r s (ground (arith, p, e))
]

abbrev SameRefs : Ref → Ref → Type 0
SameRefs a b = b.meta.owner_references ≡ a.meta.owner_references

writes : Writes (memory key) key SameRefs
writes = memory_writes key SameRefs (λ a. refl)

laws : (refs : List Ref) → ClientLaws client refs
laws refs = record {
  get_key = λ q r s e. ap (λ (n : NamespacedName). n.namespace) (find-key (key q) r s e);
  stored = λ q r saved s e same.
      let w =
        writes.update_wrote r saved s (update_in key r s).1
          (ap (λ x. (x, (update_in key r s).1)) e) in
      (
        saved,
        ap (λ k. find key (record { namespace = k; name = [] }) (update_in key r s).1) same
            ∙ w.stored,
        w.same,
      );
  others = λ q r s other. elim (Result-cases (find key (key r) s)) [
    | inr (x, p) ↦
        let stays : (update_in key r s).1 ≡ s = ground (arith, p) in ap (find key (key q)) stays
    | inl (x, p) ↦
        let w = writes.update_wrote r r s (update_in key r s).1 (ground (arith, p)) in
        w.others (key q) (λ h. other (ap (λ (n : NamespacedName). n.namespace) h))
  ];
  same_uid = λ o saved s e.
      let same : o ≡ saved = ground (arith, e) in ap (λ (x : Owner). x.object.meta.uid) (sym same);
  keeps = λ o q s h. refl;
}

abbrev env : Object
env = record {
  meta = record (new_meta (text "apps") (text "env")) { uid = text "u1" };
  api_version = text "registry.mgoltzsche.github.com/v1alpha1";
  kind = text "ImageBuildEnv";
}

-- The status refers to one secret, the spec now to another.
abbrev secret_named : Text → ObjectMeta → Ref
secret_named name m = record { go_type = text "*v1.Secret"; meta = record m { name = name } }

abbrev plain : ObjectMeta
plain = new_meta (text "apps") []

abbrev referring : ObjectMeta
referring = record plain { owner_references = reference_to env ∷ [] }

abbrev env_owner : Owner
env_owner = record { object = env; status_references = secret_named (text "old") referring ∷ [] }

abbrev wanted : List Ref
wanted = secret_named (text "new") plain ∷ []

abbrev stored_before : List Ref
stored_before = secret_named (text "old") referring ∷ secret_named (text "new") plain ∷ []

abbrev stored_behind : List Ref
stored_behind = secret_named (text "old") plain ∷ secret_named (text "new") referring ∷ []

loaded : All (IsLoaded client stored_before) wanted
unfolding find ref_key text_eq
loaded = ((secret_named (text "new") plain, refl, refl), tt)

updated :
    update_references client owner_references env_owner wanted stored_before
    ≡ done (none, stored_behind)
unfolding update_references diff_refs delete_old_refs add_new_refs has_ref_key ref_key add_reference
    add_missing del_reference check_namespace check_kind check_each del_first has_uid text_eq
    is_empty find put refers
updated = refl

back_references_written_example : All (IsReferring client (text "u1") stored_behind) wanted
back_references_written_example =
    back_references_written client wanted (laws wanted) env_owner stored_before stored_behind loaded
      updated
