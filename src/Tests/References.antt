-- ===== src/Tests/References.antt =====
-- Owner references between objects of one namespace.
use image_registry_operator.Prelude.{◌≡◌, refl, true, none, List, [], ◌∷◌}
use image_registry_operator.Go.Text.{text, text_eq, is_empty}
use image_registry_operator.Go.Error.{ok}
use image_registry_operator.Go.Panic.{done}
use image_registry_operator.Kube.Meta.{new_meta, ObjectMeta}
use image_registry_operator.Backrefs.OwnerRefs.{
  Object, add_reference, add_missing, del_reference, check_namespace, check_kind, check_each,
  del_first, reference_to, has_uid,
}
use image_registry_operator.Backrefs.OwnerRefs.Laws.{del_reference-add_reference}
use image_registry_operator.Backrefs.Handler.{
  Ref, Owner, Client, owner_references, ref_key, has_ref_key, update_references,
}
use image_registry_operator.Backrefs.Handler.Quiet.{Covered, Referring, update_references_quiet}

abbrev from : ObjectMeta
from = new_meta (text "apps") (text "secret")

abbrev to : Object
to = record {
  meta = record (new_meta (text "apps") (text "env")) { uid = text "u1" };
  api_version = text "registry.mgoltzsche.github.com/v1alpha1";
  kind = text "ImageBuildEnv";
}

abbrev referring : ObjectMeta
referring = record from { owner_references = reference_to to ∷ [] }

added : add_reference from to ≡ done (referring, true)
unfolding add_reference add_missing del_reference check_namespace check_kind check_each del_first
    has_uid text_eq is_empty
added = refl

del_reference-add_reference_example : del_reference referring to ≡ done (from, true)
del_reference-add_reference_example = del_reference-add_reference from to referring refl added

-- A client that finds every object as it is and keeps the list of those it wrote.
abbrev recorder : Client (List Ref)
recorder = record {
  get = λ r s. ok r;
  update = λ r s. (ok r, r ∷ s);
  update_status = λ o s. (ok o, s);
}

abbrev referred : Ref
referred = record { go_type = text "*v1.Secret"; meta = referring }

abbrev owner : Owner
owner = record { object = to; status_references = referred ∷ [] }

covered : Covered owner.status_references (referred ∷ [])
unfolding has_ref_key ref_key text_eq
covered = (refl, tt)

refers_back : Referring to referred
unfolding check_namespace has_uid text_eq
refers_back = (refl, refl)

update_references_quiet_example :
    update_references recorder owner_references owner (referred ∷ []) [] ≡ done (none, [])
update_references_quiet_example =
    update_references_quiet recorder owner (referred ∷ []) [] covered covered (refers_back, tt)
