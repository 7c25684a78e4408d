-- ===== src/ImageBuildEnv/References.antt =====
-- The references from a build environment to its input secrets, and back
-- (pkg/controller/imagebuildenv and pkg/backrefs).
use image_registry_operator.Prelude.{
  ◌≡◌, refl, sym, ◌∙◌, ap, subst, Bool, true, ◌||◌, inl, inr, List, [], ◌∷◌, none, map, All, arith,
}
use image_registry_operator.Go.Text.{Text, text_eq, text_eq_refl}
use image_registry_operator.Go.Error.{Result, Result-cases, ok, err}
use image_registry_operator.Go.Panic.{done}
use image_registry_operator.Kube.Meta.{NamespacedName, Secret, key_of, new_meta}
use image_registry_operator.Kube.Api.{Api}
use image_registry_operator.Backrefs.OwnerRefs.{check_namespace, has_uid}
use image_registry_operator.Backrefs.Handler.{Ref, has_ref_key, ref_key}
use image_registry_operator.Backrefs.Handler.Quiet.{Covered, Referring, update_references_quiet}
use image_registry_operator.V1alpha1.{ImageBuildEnv}
use image_registry_operator.ImageBuildEnv.{load_input_secrets, load_input_secrets_for_cr}
use image_registry_operator.ImageBuildEnv.Reconcile.{
  Deps, secret_ref, secrets_to_objects, get_status_references, set_status_references,
  update_secret_references, reference_client, owner_of,
}

or_right : (a b : Bool) → b ≡ true → (a || b) ≡ true
or_right a b h = ground arith

within-Covered :
    (refs others : List Ref)
    → ((r : Ref) → has_ref_key refs r ≡ true → has_ref_key others r ≡ true)
    → Covered others refs
unfolding has_ref_key
within-Covered [] others within = tt
within-Covered (r ∷ refs) others within = (
  within r (ap (λ b. b || has_ref_key refs r) (text_eq_refl (ref_key r))),
  within-Covered refs others λ q h. within q (or_right (text_eq (ref_key r) (ref_key q)) _ h),
)

-- The references that the status keeps, a name each, as the owner gives them back.
abbrev named : Text → List Secret → List Ref
named namespace secrets =
    map (λ name. secret_ref (new_meta namespace name))
      (map (λ (ref : Ref). ref.meta.name) (secrets_to_objects secrets))

abbrev IsIn : Text → Secret → Type 0
IsIn namespace secret = secret.meta.namespace ≡ namespace

named_key :
    (namespace : Text) (x : Secret)
    → IsIn namespace x
    → ref_key (secret_ref (new_meta namespace x.meta.name)) ≡ ref_key (secret_ref x.meta)
unfolding ref_key
named_key namespace x h = rw h refl

has_ref_key-named :
    (namespace : Text) (secrets : List Secret) (r : Ref)
    → All (IsIn namespace) secrets
    → has_ref_key (named namespace secrets) r ≡ has_ref_key (secrets_to_objects secrets) r
unfolding has_ref_key
has_ref_key-named namespace [] r h = refl
has_ref_key-named namespace (x ∷ secrets) r h =
    rw (named_key namespace x h.0, has_ref_key-named namespace secrets r h.1) refl

named-Covered :
    (namespace : Text) (secrets : List Secret) (others : List Ref)
    → All (IsIn namespace) secrets
    → Covered others (secrets_to_objects secrets)
    → Covered others (named namespace secrets)
unfolding has_ref_key
named-Covered namespace [] others h c = tt
named-Covered namespace (x ∷ secrets) others h c =
    (rw (named_key namespace x h.0) c.0, named-Covered namespace secrets others h.1 c.1)

-- What a client's `Get` returns has the key that was asked for.
abbrev pub Gets : {S : Type 0} → Api S Secret → Type 0
Gets {S} api = (k : NamespacedName) (s : S) (o : Secret) → api.get k s ≡ ok o → key_of o.meta ≡ k

-- The secrets carry the names, and are in the namespace.
abbrev pub Loaded : Text → List Text → List Secret → Type 0
Loaded namespace names secrets =
    (map (λ (ref : Ref). ref.meta.name) (secrets_to_objects secrets) ≡ names)
    × All (IsIn namespace) secrets

abbrev list_of : Result (List Secret) → List Secret
list_of (ok secrets) = secrets
list_of (err e) = []

load_input_secrets-cons :
    {S : Type 0} (api : Api S Secret) (namespace name : Text) (names : List Text) (s : S)
    (x : Secret) (xs : List Secret)
    → api.get (record { namespace = namespace; name = name }) s ≡ ok x
    → load_input_secrets api namespace names s ≡ ok xs
    → load_input_secrets api namespace (name ∷ names) s ≡ ok (x ∷ xs)
unfolding load_input_secrets
load_input_secrets-cons api namespace name names s x xs p q = rw (p, q) refl

load_input_secrets-Loaded :
    {S : Type 0} (api : Api S Secret) (gets : Gets api) (namespace : Text) (names : List Text)
    (s : S) (secrets : List Secret)
    → load_input_secrets api namespace names s ≡ ok secrets
    → Loaded namespace names secrets
unfolding load_input_secrets
load_input_secrets-Loaded api gets namespace [] s secrets h =
    subst (Loaded namespace []) (ap list_of h) (refl, tt)
load_input_secrets-Loaded api gets namespace (name ∷ names) s secrets h =
    elim (Result-cases (api.get (record { namespace = namespace; name = name }) s)) [
      | inr (e, p) ↦ absurd (ground (arith, p, h))
      | inl (x, p) ↦ elim (Result-cases (load_input_secrets api namespace names s)) [
        | inr (e, q) ↦ absurd (ground (arith, p, q, h))
        | inl (xs, q) ↦
            let (same, within) = load_input_secrets-Loaded api gets namespace names s xs q in
            let key = gets (record { namespace = namespace; name = name }) s x p in
            let all = load_input_secrets-cons api namespace name names s x xs p q in
            subst (Loaded namespace (name ∷ names)) (ap list_of (sym all ∙ h)) (
              rw (same, ap (λ (k : NamespacedName). k.name) key) refl,
              (ap (λ (k : NamespacedName). k.namespace) key, within),
            )
      ]
    ]

referring :
    {S : Type 0} (deps : Deps S) (cr : ImageBuildEnv) (secrets : List Secret)
    → All (IsIn cr.meta.namespace) secrets
    → All (λ x. has_uid cr.meta.uid x.meta.owner_references ≡ true) secrets
    → All (Referring (owner_of deps cr).object) (secrets_to_objects secrets)
unfolding check_namespace
referring deps cr [] within back = tt
referring deps cr (x ∷ secrets) within back = (
  (rw (within.0, text_eq_refl cr.meta.namespace) refl, back.0),
  referring deps cr secrets within.1 back.1,
)

-- Once the status of a build environment is set to the secrets that were loaded for it, it names
-- exactly those of the spec, and where each of them has its back reference, updating the references
-- writes nothing. A client's `Get` returns objects with the key that was asked for.
pub references_settle :
    {S : Type 0} (deps : Deps S) (cr : ImageBuildEnv) (s t : S) (secrets : List Secret)
    → Gets deps.secret_api
    → load_input_secrets_for_cr deps.secret_api cr s ≡ ok secrets
    → All (λ x. has_uid cr.meta.uid x.meta.owner_references ≡ true) secrets
    → ((set_status_references (secrets_to_objects secrets) cr).status.secret_refs ≡ cr.spec.secrets)
      × (update_secret_references deps
            (secrets_to_objects secrets)
            (set_status_references (secrets_to_objects secrets) cr, t)
          ≡ done (none, (set_status_references (secrets_to_objects secrets) cr, t)))
unfolding load_input_secrets_for_cr set_status_references get_status_references
    update_secret_references
references_settle deps cr s t secrets gets load back =
    let refs = secrets_to_objects secrets in
    let (names, within) =
      load_input_secrets-Loaded deps.secret_api gets cr.meta.namespace cr.spec.secrets s secrets
        load in
    let cr' = set_status_references refs cr in
    let own = within-Covered refs refs λ r h. h in
    let known =
      within-Covered refs (named cr.meta.namespace secrets)
        λ r h. has_ref_key-named cr.meta.namespace secrets r within ∙ h in
    (
      names,
      update_references_quiet (reference_client deps) (owner_of deps cr') refs (cr', t)
          (named-Covered cr.meta.namespace secrets refs within own) known
          (referring deps cr' secrets within back),
    )
