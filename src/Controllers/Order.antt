-- ===== src/Controllers/Order.antt =====
-- The root CA comes before the controllers (`Add` of pkg/controller/caroot, as the first function of
-- `AddToManager`).
use image_registry_operator.Prelude.{◌≡◌, ◌⊎◌, inl, inr, Option, none, some, arith}
use image_registry_operator.Go.Error.{Error, Result-cases}
use image_registry_operator.Go.Panic.{Panics-cases, done}
use image_registry_operator.Kube.Meta.{NamespacedName}
use image_registry_operator.Kube.Controller.{Registers}
use image_registry_operator.Certs.Manager.{renew_root_ca_cert_secret}
use image_registry_operator.Controllers.{
  Setup, root_ca, add_ca_root, add_ca_root_with, add_to_manager, add_to_manager_funcs,
}
use image_registry_operator.Controllers.Adding.{Renewed}

-- However the adding of the controllers ends, unless it panics: the manager is as it was, or the root
-- CA was renewed without an error in the cluster as it was found.
pub no_controller_without_root_ca :
    {M C S K : Type 0} (setup : Setup M C S K) (reg : Registers setup.api) (m m' : M) (s s' : S)
    (e : Option Error)
    → add_to_manager (add_to_manager_funcs setup) (m, s) ≡ done (e, (m', s'))
    → (m' ≡ m)
      ⊎ ((name : NamespacedName) × (t : S) × (root_ca setup ≡ done name)
          × Renewed setup reg name s t)
unfolding add_to_manager add_ca_root add_ca_root_with
no_controller_without_root_ca setup reg m m' s s' e h = elim (Result-cases setup.new_client) [
  | inr (x, p) ↦ inl (ground (arith, p, h))
  | inl (create_or_update, p) ↦ elim (Panics-cases (root_ca setup)) [
    | inl (x, q) ↦ absurd (ground (arith, p, q, h))
    | inr (name, q) ↦
        elim (Panics-cases
          (renew_root_ca_cert_secret setup.crypto create_or_update name setup.now s)) [
            | inl (x, r) ↦ absurd (ground (arith, p, q, r, h))
            | inr (((cert, some x), t), r) ↦ inl (ground (arith, p, q, r, h))
            | inr (((cert, none), t), r) ↦ inr (name, t, q, (create_or_update, cert, p, r))
          ]
  ]
]
