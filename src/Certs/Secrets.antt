-- ===== src/Certs/Secrets.antt =====
-- What renewing does to a certificate secret (pkg/certs/certmanager.go).
use image_registry_operator.Prelude.{
  ◌≡◌, refl, ◌∙◌, ap, inl, inr, ◌⊎◌, true, false, Bool-cases, Option, none, some, List, [], ◌∷◌,
  ◌++◌, if◌then◌else◌, arith,
}
use image_registry_operator.Go.Text.{Text, text, text_eq, text_eq_refl, is_empty}
use image_registry_operator.Go.Map.{Map, lookup, lookup-insert, or_empty}
use image_registry_operator.Go.Error.{
  Error, Result, Result-cases, ok, err, wrap, unmanaged_valid_secret_exists,
  unmanaged_invalid_secret_exists,
}
use image_registry_operator.Go.Panic.{Panics, Panics-cases, done}
use image_registry_operator.Go.Time.{Time}
use image_registry_operator.Kube.Meta.{NamespacedName, Secret}
use image_registry_operator.Certs.KeyPair.{Crypto, KeyPair, new_server_key_pair, needs_renewal}
use image_registry_operator.Certs.Manager
use image_registry_operator.Certs.Pem.{CryptoLaws, new_server_key_pair-ok}

equal_names_refl : (names : List Text) → Manager.equal_names names names ≡ true
unfolding Manager.equal_names
equal_names_refl [] = refl
equal_names_refl (a ∷ names) = ground (arith, text_eq_refl a, equal_names_refl names)

module _ {K : Type 0} (c : Crypto K) where
  cond_server_cert-same :
      (names : List Text) (p : KeyPair K)
      → p.x509_cert.dns_names ≡ names
      → p.x509_cert.is_ca ≡ false
      → Manager.cond_server_cert c names p ≡ false
  unfolding Manager.cond_server_cert
  cond_server_cert-same names p h flag = rw (flag, h, equal_names_refl names) refl

  -- A managed secret with a certificate that neither needs renewal nor is outdated keeps its data.
  renew_in-keeps :
      (r : Manager.Request c) (now : Time) (s : Secret) (p : KeyPair K)
      → Manager.cert_from_map c s.contents ≡ done (some p)
      → r.set_owner s ≡ ok s
      → Manager.is_managed c s ≡ true
      → needs_renewal now p.x509_cert ≡ false
      → r.cond p ≡ false
      → Manager.renew_in c r now s ≡ done (some p, ok (Manager.adopt c r s))
  unfolding Manager.renew_in
  renew_in-keeps r now s p h owned managed fresh cond =
      rw (h, owned) (ground (arith, managed, fresh, cond))

  renew_in-foreign :
      (r : Manager.Request c) (now : Time) (s : Secret) (p : KeyPair K)
      → Manager.cert_from_map c s.contents ≡ done (some p)
      → r.set_owner s ≡ ok s
      → is_empty s.meta.uid ≡ false
      → Manager.is_managed c s ≡ false
      → Manager.renew_in c r now s
        ≡ done (
          some p,
          err (
              if needs_renewal now p.x509_cert
              then unmanaged_invalid_secret_exists
              else unmanaged_valid_secret_exists),
        )
  unfolding Manager.renew_in
  renew_in-foreign r now s p h owned exists foreign =
      rw (h, owned) (ground (arith, exists, foreign))

  adopt-is_managed :
      (r : Manager.Request c) (s : Secret) → Manager.is_managed c (Manager.adopt c r s) ≡ true
  adopt-is_managed r s =
      let label = Manager.label_managed_by in
      let value = Manager.operator_name in
      let found = ap (λ b. if b then some value else lookup label r.labels) (text_eq_refl label) in
      ap (λ v. text_eq (or_empty v) value) (lookup-insert label label value r.labels ∙ found)
      ∙ text_eq_refl value

  -- What a write of the secret leaves: it is managed and of the TLS type, and holds its old data or
  -- the certificate that is returned.
  pub record Written (before : Secret) (cert : Option (KeyPair K)) (s : Secret) : Type 0 where
    pub is_managed : Manager.is_managed c s ≡ true
    pub is_tls : s.type ≡ Manager.secret_type_tls
    pub contents :
        (s.contents ≡ before.contents)
        ⊎ ((p : KeyPair K) × (cert ≡ some p) × (s.contents ≡ some (Manager.cert_to_map c p)))

  renew_data-ok :
      (r : Manager.Request c) (now : Time) (old : Option (KeyPair K)) (owned : Secret)
      (cert : Option (KeyPair K)) (s : Secret)
      → Manager.renew_data c r now old owned ≡ done (cert, ok s)
      → (s ≡ owned)
        ⊎ ((p : KeyPair K) × (cert ≡ some p)
            × (s ≡ record owned { contents = some (Manager.cert_to_map c p) }))
  renew_data-ok r now old owned cert s e = elim (Bool-cases (Manager.outdated c r now old)) [
    | inl p ↦ elim (Result-cases (r.factory now)) [
      | inl (q, f) ↦ inr (q, ground (arith, p, f, e), ground (arith, p, f, e))
      | inr (x, f) ↦ absurd (ground (arith, p, f, e))
    ]
    | inr p ↦ inl (ground (arith, p, e))
  ]

  written :
      (r : Manager.Request c) (owned : Secret) (cert : Option (KeyPair K)) (s : Secret)
      → (s ≡ Manager.adopt c r owned)
        ⊎ ((p : KeyPair K) × (cert ≡ some p)
            × (s ≡ record (Manager.adopt c r owned) { contents = some (Manager.cert_to_map c p) }))
      → Written owned cert s
  written r owned cert s (inl e) = record {
    is_managed = ap (Manager.is_managed c) e ∙ adopt-is_managed r owned;
    is_tls = ap (λ (x : Secret). x.type) e;
    contents = inl (ap (λ (x : Secret). x.contents) e);
  }
  written r owned cert s (inr (p, h, e)) = record {
    is_managed = ap (Manager.is_managed c) e ∙ adopt-is_managed r owned;
    is_tls = ap (λ (x : Secret). x.type) e;
    contents = inr (p, h, ap (λ (x : Secret). x.contents) e);
  }

  renew_owned-ok :
      (r : Manager.Request c) (now : Time) (old : Option (KeyPair K)) (owned : Secret)
      (cert : Option (KeyPair K)) (s : Secret)
      → is_empty owned.meta.uid ≡ false
      → Manager.renew_owned c r now old owned ≡ done (cert, ok s)
      → (Manager.is_managed c owned ≡ true) × Written owned cert s
  renew_owned-ok r now old owned cert s exists e = elim (Bool-cases (Manager.is_managed c owned)) [
    | inr p ↦ absurd (ground (arith, p, exists, e))
    | inl p ↦ (
      p,
      written r owned cert s
          (renew_data-ok r now old (Manager.adopt c r owned) cert s (ground (arith, p, exists, e))),
    )
  ]

  -- A secret that exists is only written if the operator manages it. It then is managed and of the
  -- TLS type, and holds its old data or the certificate that is returned.
  pub renew_in_writes_managed :
      (r : Manager.Request c) (now : Time) (secret owned : Secret) (cert : Option (KeyPair K))
      (s : Secret)
      → r.set_owner secret ≡ ok owned
      → is_empty owned.meta.uid ≡ false
      → Manager.renew_in c r now secret ≡ done (cert, ok s)
      → (Manager.is_managed c owned ≡ true) × Written owned cert s
  unfolding Manager.renew_in
  renew_in_writes_managed r now secret owned cert s set exists e =
      elim (Panics-cases (Manager.cert_from_map c secret.contents)) [
        | inl (t, p) ↦ absurd (ground (arith, p, e))
        | inr (old, p) ↦ renew_owned-ok r now old owned cert s exists (ground (arith, p, set, e))
      ]

-- A server certificate that was written into a managed secret stays there: at a later time at which
-- the certificate that is read back needs no renewal, renewing for the same names keeps the data.
-- PEM, keys and certificates are read back as documented.
pub server_cert_is_kept :
    {K : Type 0} (c : Crypto K) (laws : CryptoLaws c) (set_owner : Secret → Result Secret)
    (labels : Map Text) (names : List Text) (ca : Option (KeyPair K)) (now later : Time)
    (p : KeyPair K) (s : Secret)
    → new_server_key_pair c now names ca ≡ ok p
    → s.contents ≡ some (Manager.cert_to_map c p)
    → set_owner s ≡ ok s
    → Manager.is_managed c s ≡ true
    → ((q : KeyPair K)
        → Manager.cert_from_map c s.contents ≡ done (some q)
        → needs_renewal later q.x509_cert ≡ false)
    → (q : KeyPair K) × (q.rsa_key ≡ p.rsa_key)
      × (Manager.renew_in c (Manager.server_request c set_owner labels names ca) later s
          ≡ done
              (some q, ok (Manager.adopt c (Manager.server_request c set_owner labels names ca) s)))
server_cert_is_kept c laws set_owner labels names ca now later p s made stored owned managed fresh =
    let r = Manager.server_request c set_owner labels names ca in
    let (x, read, same, flag) = new_server_key_pair-ok c laws now names ca p made in
    let q = record p { x509_cert = x } in
    let back = ap (Manager.cert_from_map c) stored ∙ read in
    (
      q,
      refl,
      renew_in-keeps c r later s q back owned managed (fresh q back)
          (cond_server_cert-same c names q same flag),
    )

-- What `CreateOrUpdate` does where the secret exists and the function refuses it: nothing is written
-- and the function's error is returned.
abbrev pub Refuses :
    {K S : Type 0} (c : Crypto K)
    → Manager.CreateOrUpdate c S
    → NamespacedName
    → Secret
    → S
    → Type 0
Refuses {K} c create_or_update key stored s =
    (f : Secret → Panics (Option (KeyPair K) × Result Secret)) (cert : Option (KeyPair K))
    (e : Error)
    → f stored ≡ done (cert, err e)
    → create_or_update (Manager.new_secret key) f s ≡ done (cert, some e, s)

-- A root CA secret that exists and that the operator does not manage stays as it is: the
-- certificate in it is taken while it needs no renewal, and is an error from then on.
-- `CreateOrUpdate` writes nothing where the function it is given fails.
pub user_ca_is_taken :
    {K S : Type 0} (c : Crypto K) (create_or_update : Manager.CreateOrUpdate c S)
    (key : NamespacedName) (stored : Secret) (p : KeyPair K) (now : Time) (s : S)
    → Refuses c create_or_update key stored s
    → Manager.cert_from_map c stored.contents ≡ done (some p)
    → is_empty stored.meta.uid ≡ false
    → Manager.is_managed c stored ≡ false
    → Manager.renew_root_ca_cert_secret c create_or_update key now s
      ≡ done (
        (if needs_renewal now p.x509_cert
            then (
              none,
              some (
                  wrap
                    (text "upsert certificate secret " ++ Manager.key_text c key)
                    unmanaged_invalid_secret_exists),
            )
            else (some p, none)),
        s,
      )
unfolding Manager.renew_root_ca_cert_secret Manager.renew_cert_secret
user_ca_is_taken c create_or_update key stored p now s refuses read exists foreign =
    let r = Manager.ca_request c ok Manager.root_ca_secret_labels Manager.root_ca_common_name in
    let refusal =
      if needs_renewal now p.x509_cert
      then unmanaged_invalid_secret_exists
      else unmanaged_valid_secret_exists in
    let refused =
      refuses (Manager.renew_in c r now) (some p) refusal
        (renew_in-foreign c r now stored p read refl exists foreign) in
    elim (Bool-cases (needs_renewal now p.x509_cert)) [
      | inl due ↦ ground (arith, refused, due)
      | inr due ↦ ground (arith, refused, due)
    ]
