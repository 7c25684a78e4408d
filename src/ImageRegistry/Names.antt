-- ===== src/ImageRegistry/Names.antt =====
-- pkg/controller/imageregistry: the names of what belongs to an ImageRegistry, its host name and the
-- DNS names of its certificate.
use image_registry_operator.Prelude.{Option, none, some, List, [], ◌∷◌, ◌++◌, if◌then◌else◌}
use image_registry_operator.Go.Text.{Text, text, text_eq, is_empty}
use image_registry_operator.Go.Map.{Map}
use image_registry_operator.V1alpha1.{ImageRegistry, CertIssuerRefSpec}

-- `DNSZone`, of the value of OPERATOR_DNS_ZONE.
unfoldable pub dns_zone : Text → Text
dns_zone value = if is_empty value then text "svc.cluster.local" else value

unfoldable pub service_name_for_cr : ImageRegistry → Text
service_name_for_cr cr = cr.meta.name

unfoldable pub registry_hostname : ImageRegistry → Text → Text
unfolding service_name_for_cr
registry_hostname cr zone = service_name_for_cr cr ++ b'.' ∷ (cr.meta.namespace ++ b'.' ∷ zone)

unfoldable pub selector_labels_for_cr : ImageRegistry → Map Text
selector_labels_for_cr cr = (text "app", text "imageregistry-" ++ cr.meta.name) ∷ []

unfoldable pub pvc_name_for_cr : ImageRegistry → Text
pvc_name_for_cr cr = text "imageregistry-" ++ (cr.meta.name ++ text "-pvc")

unfoldable pub tls_cert_name_for_cr : ImageRegistry → Text
tls_cert_name_for_cr cr = text "imageregistry-" ++ (cr.meta.name ++ text "-tls")

-- The given secret; without one, a name for each way to get a certificate.
secret_name : Option Text → Option CertIssuerRefSpec → Text → Text → Text → Text
secret_name (some name) issuer cr self_signed managed = name
secret_name none none cr self_signed managed = text "imageregistry-" ++ (cr ++ self_signed)
secret_name none (some issuer) cr self_signed managed = text "imageregistry-" ++ (cr ++ managed)

unfoldable pub tls_secret_name_for_cr : ImageRegistry → Text
unfolding secret_name
tls_secret_name_for_cr cr =
    secret_name cr.spec.tls.secret_name cr.spec.tls.issuer_ref cr.meta.name (text "-selfsigned-tls")
      (text "-cm-tls")

unfoldable pub auth_ca_cert_name_for_cr : ImageRegistry → Text
auth_ca_cert_name_for_cr cr = text "imageregistry-" ++ (cr.meta.name ++ text "-auth-ca")

unfoldable pub auth_ca_secret_name_for_cr : ImageRegistry → Text
unfolding secret_name
auth_ca_secret_name_for_cr cr =
    secret_name cr.spec.auth.ca.secret_name cr.spec.auth.ca.issuer_ref cr.meta.name
      (text "-selfsigned-auth-ca") (text "-cm-auth-ca")

unfoldable pub service_account_name_for_cr : ImageRegistry → Text
service_account_name_for_cr cr = text "imageregistry-" ++ cr.meta.name

-- `dnsNamesForCR`, in the operator's DNS zone.
unfoldable pub dns_names_for_cr : Text → ImageRegistry → List Text
dns_names_for_cr zone cr =
    let service = cr.meta.name ++ b'.' ∷ (cr.meta.namespace ++ text ".svc") in
    let internal = cr.meta.name ++ b'.' ∷ (cr.meta.namespace ++ text ".svc.cluster.local") in
    let external = cr.meta.name ++ b'.' ∷ (cr.meta.namespace ++ b'.' ∷ zone) in
    if text_eq external internal
    then internal ∷ service ∷ []
    else external ∷ internal ∷ service ∷ []
