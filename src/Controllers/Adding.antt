-- ===== src/Controllers/Adding.antt =====
-- What the functions that add the controllers of pkg/controller add to the watches of a manager, one
-- by one.
use image_registry_operator.Prelude.{
  ◌≡◌, ◌⊎◌, refl, sym, ◌∙◌, ap, inl, inr, Option, none, some, List, [], ◌∷◌, ◌++◌, map,
  append_assoc, append-nil, arith,
}
use image_registry_operator.Go.Text.{Text, text}
use image_registry_operator.Go.Error.{Error, Result, Result-cases, ok, err}
use image_registry_operator.Go.Panic.{Panics-cases, done}
use image_registry_operator.Kube.Meta.{NamespacedName}
use image_registry_operator.Kube.Controller.{Kind, Watch, Registers}
use image_registry_operator.Certs.KeyPair.{KeyPair}
use image_registry_operator.Certs.Manager.{CreateOrUpdate, renew_root_ca_cert_secret}
use image_registry_operator.ImageSecret.Deps.{Settings}
use image_registry_operator.ImageSecret.Config.{Config, new_settings}
use image_registry_operator.Controllers.Watches.{Source, ca_root_watches, image_secret_watches}
use image_registry_operator.Controllers.{
  Reconciler, reconcile_ca_root_secret, reconcile_image_secret, Setup, AddFunc, watch_all,
  add_controller, root_ca, add_ca_root_with, add_ca_root, add_image_secret, add_to_manager,
}

abbrev pub watch_of : Reconciler → Source → Watch Reconciler
watch_of r (k, h) = record { reconciler = r; kind = k; handler = h }

abbrev pub watches_of : Reconciler → List Source → List (Watch Reconciler)
watches_of r = map (watch_of r)

module _ {W : Type 0} where
  -- A run that adds a controller first, without an error.
  pub add_to_manager-cons :
      (f : AddFunc W) (fs : List (AddFunc W)) (w w' : W)
      → add_to_manager (f ∷ fs) w ≡ done (none, w')
      → (t : W) × (f w ≡ done (none, t)) × (add_to_manager fs t ≡ done (none, w'))
  unfolding add_to_manager
  add_to_manager-cons f fs w w' e = elim (Panics-cases (f w)) [
    | inl (x, p) ↦ absurd (ground (arith, p, e))
    | inr ((some x, t), p) ↦ absurd (ground (arith, p, e))
    | inr ((none, t), p) ↦ (t, p, rw p at e)
  ]

  pub add_to_manager-nil : (w w' : W) → add_to_manager [] w ≡ done (none, w') → w ≡ w'
  unfolding add_to_manager
  add_to_manager-nil w w' e = ground arith

-- To split on the outcome of a call and keep the equation.
outcome-cases :
    {W : Type 0} (r : Option Error × W)
    → ((w : W) × (r ≡ (none, w))) ⊎ ((x : Error) × (w : W) × (r ≡ (some x, w)))
outcome-cases (none, w) = inl (w, refl)
outcome-cases (some x, w) = inr (x, w, refl)

call-cases :
    {A W : Type 0} (r : Result A × W)
    → ((a : A) × (w : W) × (r ≡ (ok a, w))) ⊎ ((x : Error) × (w : W) × (r ≡ (err x, w)))
call-cases (ok a, w) = inl (a, w, refl)
call-cases (err x, w) = inr (x, w, refl)

-- What two calls add, one behind the other.
pub join {ℓ} :
    {A : Type ℓ} {a c : List A} (b x y : List A) → a ≡ b ++ x → c ≡ a ++ y → c ≡ b ++ (x ++ y)
join b x y h k = k ∙ ap (λ l. l ++ y) h ∙ append_assoc b x y

module _ {M C S K : Type 0} (setup : Setup M C S K) (reg : Registers setup.api) where
  -- A function that adds a controller without an error adds these watches.
  abbrev pub Adds : AddFunc (M × S) → List (Watch Reconciler) → Type 0
  Adds f added =
      (m m' : M) (s s' : S)
      → f (m, s) ≡ done (none, (m', s'))
      → (reg.watches m' ≡ reg.watches m ++ added) × (s' ≡ s)

  watch_all-adds :
      (c : C) (sources : List Source) (m m' : M)
      → watch_all setup c sources m ≡ (none, m')
      → reg.watches m' ≡ reg.watches m ++ watches_of (reg.reconciler_of c) sources
  unfolding watch_all
  watch_all-adds c [] m m' e = ap reg.watches (ground arith) ∙ sym (append-nil (reg.watches m))
  watch_all-adds c ((k, h) ∷ sources) m m' e = elim (outcome-cases (setup.api.watch c k h m)) [
    | inr (x, t, p) ↦ absurd (ground (arith, p, e))
    | inl (t, p) ↦
        let rest : watch_all setup c sources t ≡ (none, m') = ground (arith, p, e) in
        watch_all-adds c sources t m' rest
        ∙ ap (λ l. l ++ watches_of (reg.reconciler_of c) sources) (reg.added c k h m t p)
        ∙ append_assoc (reg.watches m) _ _
  ]

  pub add_controller-Adds :
      (name : Text) (r : Reconciler) (sources : List Source)
      → Adds (add_controller setup name r sources) (watches_of r sources)
  unfolding add_controller
  add_controller-Adds name r sources m m' s s' e =
      elim (call-cases (setup.api.new_controller name r m)) [
        | inr (x, t, p) ↦ absurd (ground (arith, p, e))
        | inl (c, t, p) ↦ elim (outcome-cases (watch_all setup c sources t)) [
          | inr (x, u, q) ↦ absurd (ground (arith, p, q, e))
          | inl (u, q) ↦
              let (same, mine) = reg.made name r m t c p in
              let added = watch_all-adds c sources t u q in
              let there : u ≡ m' = ground (arith, p, q, e) in
              (
                ap reg.watches (sym there)
                    ∙ added
                    ∙ ap (λ l. l ++ watches_of (reg.reconciler_of c) sources) same
                    ∙ ap (λ x. reg.watches m ++ watches_of x sources) mine,
                ground (arith, p, q, e),
              )
        ]
      ]

  -- The functions that only add a controller.
  pub add_image_secret-Adds :
      (name : Text) (k : Kind) (cfg : Config) (m m' : M) (s s' : S)
      → add_image_secret setup name k cfg (m, s) ≡ done (none, (m', s'))
      → (settings : Settings) × (new_settings setup.env cfg ≡ done settings)
        × (reg.watches m'
            ≡ reg.watches m
              ++ watches_of (reconcile_image_secret k settings) (image_secret_watches k cfg))
        × (s' ≡ s)
  add_image_secret-Adds name k cfg m m' s s' e = elim (Panics-cases (new_settings setup.env cfg)) [
    | inl (x, p) ↦ absurd (ground (arith, p, e))
    | inr (settings, p) ↦
        let (added, same) =
          add_controller-Adds name (reconcile_image_secret k settings) (image_secret_watches k cfg)
            m m' s s' (rw p at e) in
        (settings, p, added, same)
  ]

  -- The root CA is renewed, without an error.
  abbrev pub Renewed : NamespacedName → S → S → Type 0
  Renewed name s s' =
      (create_or_update : CreateOrUpdate setup.crypto S) × (cert : Option (KeyPair K))
      × (setup.new_client ≡ ok create_or_update)
      × (renew_root_ca_cert_secret setup.crypto create_or_update name setup.now s
          ≡ done ((cert, none), s'))

  add_ca_root_with-Adds :
      (create_or_update : CreateOrUpdate setup.crypto S) (m m' : M) (s s' : S)
      → setup.new_client ≡ ok create_or_update
      → add_ca_root_with setup create_or_update (m, s) ≡ done (none, (m', s'))
      → (name : NamespacedName) × (root_ca setup ≡ done name)
        × Renewed name s s'
        × (reg.watches m'
            ≡ reg.watches m ++ watches_of (reconcile_ca_root_secret name) (ca_root_watches name))
  unfolding add_ca_root_with
  add_ca_root_with-Adds create_or_update m m' s s' client e = elim (Panics-cases (root_ca setup)) [
    | inl (x, q) ↦ absurd (ground (arith, q, e))
    | inr (name, q) ↦
        elim (Panics-cases
          (renew_root_ca_cert_secret setup.crypto create_or_update name setup.now s)) [
            | inl (x, r) ↦ absurd (ground (arith, q, r, e))
            | inr (((cert, some x), t), r) ↦ absurd (ground (arith, q, r, e))
            | inr (((cert, none), t), r) ↦
                let (added, same) =
                  add_controller-Adds (text "caroot-controller") (reconcile_ca_root_secret name)
                    (ca_root_watches name) m m' t s' (ground (arith, q, r, e)) in
                (name, q, (create_or_update, cert, client, rw same r), added)
          ]
  ]

  pub add_ca_root-Adds :
      (m m' : M) (s s' : S)
      → add_ca_root setup (m, s) ≡ done (none, (m', s'))
      → (name : NamespacedName) × (root_ca setup ≡ done name)
        × Renewed name s s'
        × (reg.watches m'
            ≡ reg.watches m ++ watches_of (reconcile_ca_root_secret name) (ca_root_watches name))
  unfolding add_ca_root
  add_ca_root-Adds m m' s s' e = elim (Result-cases setup.new_client) [
    | inr (x, p) ↦ absurd (ground (arith, p, e))
    | inl (create_or_update, p) ↦
        add_ca_root_with-Adds create_or_update m m' s s' p (ground (arith, p, e))
  ]
