-- ===== src/ImageSecret/Order.antt =====
-- What the reconciler touches, and in which order.
use image_registry_operator.Prelude.{
  ◌≡◌, sym, ap, ◌⊎◌, inl, inr, true, false, Bool-cases, Option, none, some, arith, subst,
}
use image_registry_operator.Prelude.Int.{pos, ◌+ℤ◌}
use image_registry_operator.Go.Text.{Text, is_empty}
use image_registry_operator.Go.Error.{Error, ok, Result-cases}
use image_registry_operator.Go.Time.{wrap64}
use image_registry_operator.Kube.Meta.{NamespacedName, Secret}
use image_registry_operator.Merge.{has_finalizer}
use image_registry_operator.PasswordGen.{generate_password}
use image_registry_operator.V1alpha1.{ImageSecret, ImageRegistryAccount}
use image_registry_operator.ImageSecret.Names.{account_name_for_cr}
use image_registry_operator.ImageSecret.Deps.{Cluster, Settings, Deps, Readings}
use image_registry_operator.ImageSecret.Rotate.{
  TargetRegistry, save_secret, save_account, save_rotation, rotate_password, count_rotation,
  new_account, drop_moved_accounts, delete_orphan_accounts,
}
use image_registry_operator.ImageSecret.Checks.{done, finalizer}
use image_registry_operator.ImageSecret.Reconcile.{set_sync_status, finalize, protect, reconcile}
use image_registry_operator.ImageSecret.Laws.{Laws, SameCr}
use image_registry_operator.ImageSecret.Consistency.{counted_lem, account_lem}

module _ {C A S R : Type 0} (deps : Deps C A S R) (cfg : Settings) where
  protect-keeps :
      (cr : ImageSecret) (cl : Cluster C A S R)
      → ((protect deps cfg cr cl).1.accounts ≡ cl.accounts)
        × ((protect deps cfg cr cl).1.secrets ≡ cl.secrets)
  unfolding protect set_sync_status
  protect-keeps cr cl = ground arith

  finalize-keeps :
      (request : NamespacedName) (cr : ImageSecret) (cl : Cluster C A S R)
      → (finalize deps cfg request cr cl).1.secrets ≡ cl.secrets
  unfolding finalize
  finalize-keeps request cr cl = ground arith

  -- Whoever asks, the accounts and the secrets of the cluster stay as they are unless the CR exists
  -- and has the operator's finalizer; and of a CR that is being deleted the secrets stay.
  pub reconcile_guarded :
      (r : Readings) (request : NamespacedName) (cl : Cluster C A S R)
      → (((reconcile deps cfg r request cl).1.accounts ≡ cl.accounts)
          × ((reconcile deps cfg r request cl).1.secrets ≡ cl.secrets))
        ⊎ ((cr : ImageSecret) × (deps.cr_api.get request cl.crs ≡ ok cr)
            × (has_finalizer cr.meta finalizer ≡ true)
            × ((cr.meta.deletion_timestamp ≡ none)
                ⊎ ((reconcile deps cfg r request cl).1.secrets ≡ cl.secrets)))
  unfolding reconcile
  reconcile_guarded r request cl = elim (Result-cases (deps.cr_api.get request cl.crs)) [
    | inr (e, p) ↦ inl (ground (arith, p))
    | inl (cr, p) ↦ elim (Bool-cases (has_finalizer cr.meta finalizer)) [
      | inr h ↦ inl (ground (arith, p, h, protect-keeps cr cl))
      | inl h ↦ inr (cr, p, h, ground (arith, p, h, finalize-keeps request cr cl))
    ]
  ]

  -- Finalizing fails if the accounts in the CR's registry namespace cannot be deleted, and then the
  -- finalizer stays: the CR is not written.
  pub finalizer_outlives_accounts :
      (request : NamespacedName) (cr : ImageSecret) (cl : Cluster C A S R) (e : Error)
      (accounts : A)
      → is_empty cr.status.registry_namespace ≡ false
      → deps.delete_all_of
          (deps.selector_from_set cfg.account_label (deps.name_string request))
          cr.status.registry_namespace
          cl.accounts
        ≡ (some e, accounts)
      → ((finalize deps cfg request cr cl).0 ≡ done (some e))
        × ((finalize deps cfg request cr cl).1.crs ≡ cl.crs)
  unfolding finalize delete_orphan_accounts
  finalizer_outlives_accounts request cr cl e accounts h p = ground (arith, h, p)

  module _ (laws : Laws deps) (registry : TargetRegistry) where
    abbrev pub Stored : ImageSecret → Cluster C A S R → Type 0
    Stored cr cl =
        (account : ImageRegistryAccount) × (deps.account_api.get
            (record { namespace = registry.namespace; name = account_name_for_cr cr }) cl.accounts
          ≡ ok account)

    save_secret-keeps :
        (cr : ImageSecret) (user password : Text) (secret : Secret) (cl : Cluster C A S R)
        → ((save_secret deps cfg registry cr user password secret cl).1 ≡ cr)
          × ((save_secret deps cfg registry cr user password secret cl).2.accounts ≡ cl.accounts)
    unfolding save_secret
    save_secret-keeps cr user password secret cl = ground arith

    save_account-order :
        (cr : ImageSecret) (password hash : Text) (secret : Secret) (cl : Cluster C A S R)
        → ((save_account deps cfg registry cr password hash secret cl).1 ≡ cr)
          × (((save_account deps cfg registry cr password hash secret cl).2.secrets ≡ cl.secrets)
              ⊎ Stored cr (save_account deps cfg registry cr password hash secret cl).2)
    unfolding save_account
    save_account-order cr password hash secret cl =
        let w = deps.account_api.create (new_account cfg registry cr hash) cl.accounts in
        elim (Result-cases w.0) [
          | inr (e, p) ↦ (ground (arith, p), inl (ground (arith, p)))
          | inl (account, p) ↦
              let wrote =
                laws.account_writes.create_wrote (new_account cfg registry cr hash) account
                  cl.accounts w.1 (ap (λ r. (r, w.1)) p) in
              let cl' : Cluster C A S R = record cl { accounts = w.1 } in
              let (kept, accounts) = save_secret-keeps cr account.meta.name password secret cl' in
              (
                rw (p, save_account) kept,
                rw (p, save_account)
                    (inr (
                      account,
                      rw accounts (
                          rw (account_lem cfg registry cr hash account wrote.same).1 at
                            wrote.stored),
                    )),
              )
        ]

    abbrev Counted :
        ImageSecret → Option Error × ImageSecret × Cluster C A S R → Cluster C A S R → Type 0
    Counted cr result cl =
        (result.2.secrets ≡ cl.secrets) ⊎ (Stored result.1 result.2 × SameCr cr result.1)

    save_rotation-order :
        (cr : ImageSecret) (password hash : Text) (secret : Secret) (cl : Cluster C A S R)
        → Counted cr (save_rotation deps cfg registry cr password hash secret cl) cl
    unfolding save_rotation
    save_rotation-order cr password hash secret cl =
        let w = deps.cr_api.update_status cr cl.crs in
        elim (Result-cases w.0) [
          | inr (e, p) ↦ inl (ground (arith, p))
          | inl (saved, p) ↦
              let cl' : Cluster C A S R = record cl { crs = w.1 } in
              let (kept, touched) = save_account-order saved password hash secret cl' in
              let same = laws.status_saved cr saved cl.crs w.1 (ap (λ r. (r, w.1)) p) in
              rw (p, save_rotation)
                (elim touched [
                  | inl unchanged ↦ inl unchanged
                  | inr stored ↦ inr (
                    subst
                        (λ c.
                          Stored c
                            (save_account deps cfg registry saved password hash secret cl').2)
                        (sym kept) stored,
                    subst (SameCr cr) (sym kept) same,
                  )
                ])
        ]

    -- A rotation touches the secrets only if a new account is stored under the CR's next rotation
    -- count, whether it then fails or not.
    pub secret_after_account :
        (r : Readings) (cr : ImageSecret) (secret : Secret) (cl : Cluster C A S R)
        → ((rotate_password deps cfg r cr registry secret cl).2.secrets ≡ cl.secrets)
          ⊎ (Stored
                (rotate_password deps cfg r cr registry secret cl).1
                (rotate_password deps cfg r cr registry secret cl).2
              × ((rotate_password deps cfg r cr registry secret cl).1.status.rotation
                  ≡ wrap64 (cr.status.rotation +ℤ pos 1)))
    unfolding rotate_password
    secret_after_account r cr secret cl =
        let password = generate_password r.rnd r.rand in
        elim (Result-cases (deps.bcrypt_password password)) [
          | inr (e, p) ↦ inl (ground (arith, p))
          | inl (hash, p) ↦
              rw (p, rotate_password)
                (elim (save_rotation-order (count_rotation r.rotated registry cr) password hash
                  secret
                  (record cl { accounts = drop_moved_accounts deps cfg registry cr cl.accounts })) [
                    | inl unchanged ↦ inl unchanged
                    | inr (stored, same) ↦
                        inr (stored, (counted_lem r.rotated registry cr _ same).0)
                  ])
        ]
