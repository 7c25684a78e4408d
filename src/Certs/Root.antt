-- ===== src/Certs/Root.antt =====
-- pkg/certs/certmanager.go: where the root CA is, and reading a certificate back.
use image_registry_operator.Prelude.{Option, none, some, ◌++◌, if◌then◌else◌}
use image_registry_operator.Go.Text.{Text, text, is_empty}
use image_registry_operator.Go.Error.{Result, ok, err, failure, message}
use image_registry_operator.Go.Panic.{Panics, done, panic, ◌>>=◌}
use image_registry_operator.Kube.Meta.{NamespacedName, Secret}
use image_registry_operator.Certs.KeyPair.{Crypto, KeyPair}
use image_registry_operator.Certs.Manager.{cert_from_map, key_text}

abbrev root_ca_in : Text → NamespacedName
root_ca_in namespace = record { name = text "image-registry-root-ca"; namespace = namespace }

-- `RootCASecretName`, of what `GetOperatorNamespace` returns and the value of WATCH_NAMESPACE.
unfoldable pub root_ca_secret_name : Result Text → Text → Panics NamespacedName
root_ca_secret_name (ok namespace) watch = done (root_ca_in namespace)
root_ca_secret_name (err e) watch =
    if is_empty watch then panic (message e) else done (root_ca_in watch)

module _ {K : Type 0} (c : Crypto K) where
  abbrev some_pair : NamespacedName → Option (KeyPair K) → Result (KeyPair K)
  some_pair name none = err (failure (text "invalid certificate in Secret " ++ key_text c name))
  some_pair name (some p) = ok p

  -- `CertManager.KeyPair`, of a client's `Get`. A failed `Get` leaves the secret empty.
  unfoldable pub key_pair :
      {S : Type 0}
      → (NamespacedName → S → Result Secret)
      → NamespacedName
      → S
      → Panics (Result (KeyPair K))
  key_pair get name s = elim (get name s) [
    | err e ↦ done (err e)
    | ok secret ↦ do cert ← cert_from_map c secret.contents; done (some_pair name cert)
  ]
