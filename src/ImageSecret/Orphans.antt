-- ===== src/ImageSecret/Orphans.antt =====
-- What the finalizer of an image secret deletes (`Reconcile` and `deleteOrphanAccounts` of
-- pkg/controller/imagesecret/secretreconciler.go).
use image_registry_operator.Prelude.{
  ◌≡◌, sym, ap, ◌∙◌, inl, inr, true, false, none, some, Option-cases, ◌∷◌, ◌++◌, arith,
}
use image_registry_operator.Go.Text.{Text, is_empty}
use image_registry_operator.Go.Error.{Error, ok, err, is_not_found}
use image_registry_operator.Go.Time.{Time}
use image_registry_operator.Kube.Meta.{NamespacedName}
use image_registry_operator.Merge.{has_finalizer}
use image_registry_operator.V1alpha1.{ImageSecret}
use image_registry_operator.ImageSecret.Deps.{Cluster, Settings, Deps, Readings, everything}
use image_registry_operator.ImageSecret.Rotate.{delete_orphan_accounts}
use image_registry_operator.ImageSecret.Checks.{finalizer}
use image_registry_operator.ImageSecret.Reconcile.{finalize, reconcile}

-- What the libraries do at the versions of go.mod. `NamespacedName.String` prints the namespace, a slash
-- and the name. A label value has no slash, and `SelectorFromSet` makes the empty selector of what is
-- no label value. `DeleteAllOf` without an error leaves nothing in the namespace that is selected.
pub record DeletionLaws {C A S R : Type 0} (deps : Deps C A S R) : Type 0 where
  pub prints : (n : NamespacedName) → deps.name_string n ≡ n.namespace ++ b'/' ∷ n.name
  pub no_value : (label a b : Text) → deps.selector_from_set label (a ++ b'/' ∷ b) ≡ everything
  pub deletes :
      (namespace : Text) (s : A) (k : NamespacedName)
      → (deps.delete_all_of everything namespace s).0 ≡ none
      → k.namespace ≡ namespace
      → (e : Error) × (deps.account_api.get k (deps.delete_all_of everything namespace s).1 ≡ err e)
        × (is_not_found e ≡ true)

module _ {C A S R : Type 0} (deps : Deps C A S R) (laws : DeletionLaws deps) (cfg : Settings) where
  selects_everything :
      (request : NamespacedName) (namespace : Text) (s : A)
      → delete_orphan_accounts deps cfg request namespace s
        ≡ deps.delete_all_of everything namespace s
  unfolding delete_orphan_accounts
  selects_everything request namespace s =
      ap (λ v. deps.delete_all_of (deps.selector_from_set cfg.account_label v) namespace s)
        (laws.prints request)
      ∙ ap (λ x. deps.delete_all_of x namespace s)
          (laws.no_value cfg.account_label request.namespace request.name)

  finalize-deletes :
      (request : NamespacedName) (cr : ImageSecret) (cl : Cluster C A S R)
      → is_empty cr.status.registry_namespace ≡ false
      → (finalize deps cfg request cr cl).0.error ≡ none
      → ((deps.delete_all_of everything cr.status.registry_namespace cl.accounts).0 ≡ none)
        × ((finalize deps cfg request cr cl).1.accounts
            ≡ (deps.delete_all_of everything cr.status.registry_namespace cl.accounts).1)
  unfolding finalize
  finalize-deletes request cr cl given e =
      let all = selects_everything request cr.status.registry_namespace cl.accounts in
      let d = deps.delete_all_of everything cr.status.registry_namespace cl.accounts in
      elim (Option-cases d.0) [
        | inr (x, p) ↦ absurd (ground (arith, given, all, p, e))
        | inl p ↦ (p, ground (arith, given, all, p))
      ]

  -- If the reconciliation of a CR that is being deleted ends without an error, no account is left in
  -- the namespace of its registry, whichever CR it was made for. The CR has the finalizer and knows
  -- that namespace, and the libraries do what they do at their versions.
  pub finalizer_deletes_all_accounts :
      (r : Readings) (request : NamespacedName) (cr : ImageSecret) (cl : Cluster C A S R)
      (deleted : Time) (k : NamespacedName)
      → deps.cr_api.get request cl.crs ≡ ok cr
      → cr.meta.deletion_timestamp ≡ some deleted
      → has_finalizer cr.meta finalizer ≡ true
      → is_empty cr.status.registry_namespace ≡ false
      → (reconcile deps cfg r request cl).0.error ≡ none
      → k.namespace ≡ cr.status.registry_namespace
      → (e : Error) × (deps.account_api.get k (reconcile deps cfg r request cl).1.accounts ≡ err e)
        × (is_not_found e ≡ true)
  unfolding reconcile
  finalizer_deletes_all_accounts r request cr cl deleted k found gone has given e there =
      let same : reconcile deps cfg r request cl ≡ finalize deps cfg request cr cl =
        ground (arith, found, gone, has) in
      let (fine, left) =
        finalize-deletes request cr cl given (ap (λ x. x.0.error) (sym same) ∙ e) in
      let (x, missing, not_found) =
        laws.deletes cr.status.registry_namespace cl.accounts k fine there in
      (x, ap (deps.account_api.get k) (ap (λ x. x.1.accounts) same ∙ left) ∙ missing, not_found)
