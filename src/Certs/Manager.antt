-- ===== src/Certs/Manager.antt =====
-- pkg/certs/certmanager.go: a certificate secret is made or renewed in one `CreateOrUpdate`.
use image_registry_operator.Prelude.{
  Bool, true, false, not, ◌&&◌, ◌||◌, Option, none, some, List, [], ◌∷◌, ◌++◌, if◌then◌else◌,
}
use image_registry_operator.Go.Text.{Text, text, text_eq, is_empty}
use image_registry_operator.Go.Map.{Map, lookup, insert, or_empty}
use image_registry_operator.Go.Error.{
  Error, Result, ok, err, wrap, unmanaged_valid_secret_exists, unmanaged_invalid_secret_exists,
}
use image_registry_operator.Go.Panic.{Panics, done, nil_pointer, ◌>>=◌}
use image_registry_operator.Go.Time.{Time}
use image_registry_operator.Kube.Meta.{NamespacedName, Secret, new_meta}
use image_registry_operator.Certs.KeyPair.{
  Crypto, KeyPair, x509_key_pair, key_pem, new_self_signed_ca_key_pair, new_server_key_pair,
  needs_renewal,
}

abbrev pub secret_key_ca_crt : Text
secret_key_ca_crt = text "ca.crt"

abbrev pub secret_key_tls_crt : Text
secret_key_tls_crt = text "tls.crt"

abbrev pub secret_key_tls_key : Text
secret_key_tls_key = text "tls.key"

abbrev pub label_managed_by : Text
label_managed_by = text "app.kubernetes.io/managed-by"

abbrev pub operator_name : Text
operator_name = text "image-registry-operator"

abbrev pub root_ca_common_name : Text
root_ca_common_name = text "image-registry-operator.caroot.local"

abbrev pub root_ca_secret_labels : Map Text
root_ca_secret_labels = (text "name", text "image-registry-operator") ∷ []

-- `corev1.SecretTypeTLS`.
abbrev pub secret_type_tls : Text
secret_type_tls = text "kubernetes.io/tls"

unfoldable pub equal_names : List Text → List Text → Bool
equal_names [] [] = true
equal_names [] (b ∷ others) = false
equal_names (a ∷ names) [] = false
equal_names (a ∷ names) (b ∷ others) = text_eq a b && equal_names names others

abbrev pub ok_pair {ℓ} : {A : Type ℓ} → Result A → Option A
ok_pair (ok a) = some a
ok_pair (err e) = none

-- The secret that `CreateOrUpdate` starts with.
abbrev pub new_secret : NamespacedName → Secret
new_secret key = record { meta = new_meta key.namespace key.name; type = []; contents = none }

module _ {K : Type 0} (c : Crypto K) where
  -- An error of the parser is dropped, a panic is not.
  unfoldable pub cert_from_map : Option (Map Text) → Panics (Option (KeyPair K))
  cert_from_map none = done none
  cert_from_map (some m) = do
    parsed ←
        x509_key_pair c (or_empty (lookup secret_key_tls_key m))
          (or_empty (lookup secret_key_tls_crt m)) (or_empty (lookup secret_key_ca_crt m))
    done (ok_pair parsed)

  abbrev pub cert_to_map : KeyPair K → Map Text
  cert_to_map cert =
      (secret_key_ca_crt, cert.ca_cert_pem)
      ∷ (secret_key_tls_crt, cert.signed_cert_pem)
      ∷ (secret_key_tls_key, key_pem c cert)
      ∷ []

  unfoldable pub cond_server_cert : List Text → KeyPair K → Bool
  cond_server_cert names cert =
      cert.x509_cert.is_ca || not (equal_names cert.x509_cert.dns_names names)

  unfoldable pub cond_ca_cert : KeyPair K → Bool
  cond_ca_cert cert = not cert.x509_cert.is_ca

  -- What the two kinds of certificate differ in, and the caller's part of the secret: the owner sets
  -- a controller reference with a library call, without one it is `ok`.
  pub record Request : Type 0 where
    pub set_owner : Secret → Result Secret
    pub labels : Map Text
    pub cond : KeyPair K → Bool
    pub factory : Time → Result (KeyPair K)

  abbrev pub is_managed : Secret → Bool
  is_managed secret = text_eq (or_empty (lookup label_managed_by secret.meta.labels)) operator_name

  abbrev pub renewable : Time → Option (KeyPair K) → Bool
  renewable now none = true
  renewable now (some cert) = needs_renewal now cert.x509_cert

  abbrev pub outdated : Request → Time → Option (KeyPair K) → Bool
  outdated r now none = true
  outdated r now (some cert) = needs_renewal now cert.x509_cert || r.cond cert

  abbrev pub adopt : Request → Secret → Secret
  adopt r secret = record secret {
    meta = record secret.meta { labels = insert label_managed_by operator_name r.labels };
    type = secret_type_tls;
  }

  -- `certToMap(nil)` panics, and so an error of the factory is a panic.
  abbrev pub put_cert : Secret → Result (KeyPair K) → Panics (Option (KeyPair K) × Result Secret)
  put_cert secret (err e) = nil_pointer
  put_cert secret (ok cert) =
      done (some cert, ok (record secret { contents = some (cert_to_map cert) }))

  abbrev pub renew_data :
      Request → Time → Option (KeyPair K) → Secret → Panics (Option (KeyPair K) × Result Secret)
  renew_data r now cert secret =
      if outdated r now cert then put_cert secret (r.factory now) else done (cert, ok secret)

  abbrev pub renew_owned :
      Request → Time → Option (KeyPair K) → Secret → Panics (Option (KeyPair K) × Result Secret)
  renew_owned r now cert secret =
      if not (is_empty secret.meta.uid) && not (is_managed secret)
      then done (
        cert,
        err (
            if renewable now cert
            then unmanaged_invalid_secret_exists
            else unmanaged_valid_secret_exists),
      )
      else renew_data r now cert (adopt r secret)

  -- The function that `CreateOrUpdate` applies to the secret it found or to the new one. It returns
  -- the certificate and the changed secret.
  unfoldable pub renew_in : Request → Time → Secret → Panics (Option (KeyPair K) × Result Secret)
  renew_in r now secret = do
    cert ← cert_from_map secret.contents
    elim (r.set_owner secret) [
      | err e ↦ done (cert, err e)
      | ok owned ↦ renew_owned r now cert owned
    ]

  -- `CreateOrUpdate` of controller-runtime on a new secret, a function to apply and the secrets of
  -- the cluster; what the function returns beside the secret is passed on, `none` if it was not called.
  abbrev pub CreateOrUpdate : Type 0 → Type 0
  CreateOrUpdate S =
      Secret
      → (Secret → Panics (Option (KeyPair K) × Result Secret))
      → S
      → Panics (Option (KeyPair K) × Option Error × S)

  abbrev pub key_text : NamespacedName → Text
  key_text key = key.namespace ++ b'/' ∷ key.name

  abbrev pub wrap_error : Text → Option Error → Option Error
  wrap_error s none = none
  wrap_error s (some e) = some (wrap s e)

  unfoldable pub renew_cert_secret :
      {S : Type 0}
      → CreateOrUpdate S
      → NamespacedName
      → Request
      → Time
      → S
      → Panics (Option (KeyPair K) × Option Error × S)
  renew_cert_secret create_or_update key r now s = do
    (cert, e, t) ← create_or_update (new_secret key) (renew_in r now) s
    done (cert, wrap_error (text "upsert certificate secret " ++ key_text key) e, t)

  abbrev pub ca_request : (Secret → Result Secret) → Map Text → Text → Request
  ca_request set_owner labels common_name = record {
    set_owner = set_owner;
    labels = labels;
    cond = cond_ca_cert;
    factory = λ now. new_self_signed_ca_key_pair c now common_name;
  }

  abbrev pub server_request :
      (Secret → Result Secret) → Map Text → List Text → Option (KeyPair K) → Request
  server_request set_owner labels dns_names ca = record {
    set_owner = set_owner;
    labels = labels;
    cond = cond_server_cert dns_names;
    factory = λ now. new_server_key_pair c now dns_names ca;
  }

  abbrev pub is_valid_but_unmanaged : Error → Bool
  is_valid_but_unmanaged (wrap s unmanaged_valid_secret_exists) = true
  is_valid_but_unmanaged e = false

  -- The error of `renewCertSecret` is dropped if a valid certificate is there that the operator does
  -- not manage.
  abbrev pub accept_unmanaged :
      Option (KeyPair K) → Option Error → Option (KeyPair K) × Option Error
  accept_unmanaged cert none = (cert, none)
  accept_unmanaged none (some e) = (none, some e)
  accept_unmanaged (some p) (some e) =
      if is_valid_but_unmanaged e then (some p, none) else (none, some e)

  unfoldable pub renew_root_ca_cert_secret :
      {S : Type 0}
      → CreateOrUpdate S
      → NamespacedName
      → Time
      → S
      → Panics ((Option (KeyPair K) × Option Error) × S)
  renew_root_ca_cert_secret create_or_update key now s = do
    (cert, e, t) ←
        renew_cert_secret create_or_update key
          (ca_request ok root_ca_secret_labels root_ca_common_name) now s
    done (accept_unmanaged cert e, t)
