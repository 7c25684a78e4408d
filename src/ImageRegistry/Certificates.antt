-- ===== src/ImageRegistry/Certificates.antt =====
-- pkg/controller/imageregistry/imageregistry_reconcile_certs.go: the certificates of a registry, from
-- cert-manager where the CR names an issuer, and from the operator where it names neither an issuer
-- nor a secret.
use image_registry_operator.Prelude.{
  ℕ, ◌*◌, Bool, true, false, Option, none, some, List, [], ◌∷◌, ◌++◌,
}
use image_registry_operator.Go.Text.{Text, text}
use image_registry_operator.Go.Error.{Error, Result, ok, err}
use image_registry_operator.Go.Panic.{Panics, done, ◌>>=◌}
use image_registry_operator.Go.Time.{Time, Duration, seconds}
use image_registry_operator.Kube.Meta.{NamespacedName, Secret, new_resource}
use image_registry_operator.Certs.KeyPair.{Crypto, KeyPair}
use image_registry_operator.Certs.Manager
use image_registry_operator.Certs.Root.{key_pair}
use image_registry_operator.V1alpha1.{ImageRegistry, CertIssuerRefSpec}
use image_registry_operator.ImageRegistry.Names.{
  selector_labels_for_cr, tls_cert_name_for_cr, tls_secret_name_for_cr, auth_ca_cert_name_for_cr,
  auth_ca_secret_name_for_cr, dns_names_for_cr,
}
use image_registry_operator.ImageRegistry.Upsert.{
  ReconcileImageRegistry, Conditions, CreateOrUpdate, SetControllerReference, Task, Modify, upsert,
}

pub record ObjectReference : Type 0 where
  pub name : Text
  pub kind : Text

-- The spec of a cert-manager Certificate.
pub record CertificateRequest : Type 0 where
  pub is_ca : Bool
  pub duration : Option Duration
  pub renew_before : Option Duration
  pub common_name : Text
  pub dns_names : List Text
  pub secret_name : Text
  pub issuer_ref : ObjectReference

abbrev pub to_object_reference : CertIssuerRefSpec → ObjectReference
to_object_reference issuer = record { name = issuer.name; kind = issuer.kind }

abbrev new_request : CertificateRequest
new_request = record {
  is_ca = false;
  duration = none;
  renew_before = none;
  common_name = [];
  dns_names = [];
  secret_name = [];
  issuer_ref = record { name = []; kind = [] };
}

abbrev hours : ℕ → Duration
hours n = seconds (n * 3600)

abbrev pub token_common_name : ImageRegistry → Text
token_common_name cr = cr.meta.name ++ b'.' ∷ (cr.meta.namespace ++ text ".svc")

-- `dnsNames[0]`; a registry has at least two names.
abbrev first_name : List Text → Text
first_name [] = []
first_name (name ∷ names) = name

abbrev pub token_request : ImageRegistry → CertIssuerRefSpec → CertificateRequest
token_request cr issuer = record {
  is_ca = true;
  duration = some (hours (24 * 365 * 5));
  renew_before = none;
  common_name = token_common_name cr;
  dns_names = [];
  secret_name = auth_ca_secret_name_for_cr cr;
  issuer_ref = to_object_reference issuer;
}

abbrev pub tls_request : Text → ImageRegistry → CertIssuerRefSpec → CertificateRequest
tls_request zone cr issuer =
    let names = dns_names_for_cr zone cr in
    record {
      is_ca = false;
      duration = some (hours (24 * 90));
      renew_before = some (hours (24 * 20));
      common_name = first_name names;
      dns_names = names;
      secret_name = tls_secret_name_for_cr cr;
      issuer_ref = to_object_reference issuer;
    }

-- The functions that the two tasks hand to `upsert` differ in the spec.
abbrev request_certificate : ImageRegistry → CertificateRequest → Modify CertificateRequest
request_certificate cr spec o conditions = (
  record o { meta = record o.meta { labels = selector_labels_for_cr cr }; body = spec },
  conditions,
)

abbrev pub key_for : ImageRegistry → Text → NamespacedName
key_for cr name = record { namespace = cr.meta.namespace; name = name }

-- What the tasks call: the upserts of Certificates and of certificate secrets, and `Get`.
pub record CertDeps (S K : Type 0) : Type 0 where
  pub crypto : Crypto K
  pub certificates : CreateOrUpdate S CertificateRequest
  pub secrets : Manager.CreateOrUpdate crypto S
  pub get_secret : NamespacedName → S → Result Secret
  pub set_controller_reference : SetControllerReference

module _ {S K : Type 0} (deps : CertDeps S K) where
  -- The owner of a certificate secret.
  unfoldable pub own_secret : ImageRegistry → Secret → Result Secret
  own_secret cr secret = elim (deps.set_controller_reference cr secret.meta) [
    | err e ↦ err e
    | ok meta ↦ ok (record secret { meta = meta })
  ]

  abbrev pub only_error :
      Conditions → Option (KeyPair K) × Option Error × S → Panics (Option Error × Conditions × S)
  only_error conditions (cert, e, t) = done (e, conditions, t)

  abbrev pub renew_secret :
      ImageRegistry
      → Text
      → Manager.Request deps.crypto
      → Time
      → Conditions
      → S
      → Panics (Option Error × Conditions × S)
  renew_secret cr name request now conditions s =
      Manager.renew_cert_secret deps.crypto deps.secrets (key_for cr name) request now s
      >>= only_error conditions

  -- `now` is the clock when a certificate is made.
  unfoldable pub reconcile_token_cert : Time → Task S
  reconcile_token_cert now cr conditions s = elim cr.spec.auth.ca.issuer_ref [
    | some issuer ↦
        upsert deps.certificates deps.set_controller_reference (some cr)
          (new_resource cr.meta.namespace (auth_ca_cert_name_for_cr cr) new_request)
          (request_certificate cr (token_request cr issuer)) conditions s
    | none ↦ elim cr.spec.auth.ca.secret_name [
      | some given ↦ done (none, conditions, s)
      | none ↦
          renew_secret cr (auth_ca_secret_name_for_cr cr)
            (Manager.ca_request deps.crypto (own_secret cr) (selector_labels_for_cr cr)
              (token_common_name cr))
            now conditions s
    ]
  ]

  -- The registry's own certificate, signed by the root CA at `root`.
  abbrev pub renew_tls_cert : ReconcileImageRegistry → NamespacedName → Time → Task S
  renew_tls_cert r root now cr conditions s = do
    ca ← key_pair deps.crypto deps.get_secret root s
    elim ca [
      | err e ↦ done (some e, conditions, s)
      | ok p ↦
          renew_secret cr (tls_secret_name_for_cr cr)
            (Manager.server_request deps.crypto (own_secret cr) (selector_labels_for_cr cr)
              (dns_names_for_cr r.dns_zone cr) (some p))
            now conditions s
    ]

  unfoldable pub reconcile_tls_cert : ReconcileImageRegistry → NamespacedName → Time → Task S
  reconcile_tls_cert r root now cr conditions s = elim cr.spec.tls.issuer_ref [
    | some issuer ↦
        upsert deps.certificates deps.set_controller_reference (some cr)
          (new_resource cr.meta.namespace (tls_cert_name_for_cr cr) new_request)
          (request_certificate cr (tls_request r.dns_zone cr issuer)) conditions s
    | none ↦ elim cr.spec.tls.secret_name [
      | some given ↦ done (none, conditions, s)
      | none ↦ renew_tls_cert r root now cr conditions s
    ]
  ]
