-- ===== src/Certs/Pem.antt =====
-- Key pairs as they are stored in a secret, and read back (pkg/certs).
use image_registry_operator.Prelude.{
  ◌≡◌, ◌∙◌, ap, inl, inr, true, false, ◌&&◌, Option, none, some, List, [], ◌∷◌, arith, ℕ,
}
use image_registry_operator.Go.Text.{Text, text_eq}
use image_registry_operator.Go.Map.{lookup}
use image_registry_operator.Go.Error.{Result-cases, ok}
use image_registry_operator.Go.Panic.{done, ◌>>=◌}
use image_registry_operator.Go.Time.{Time}
use image_registry_operator.Certs.KeyPair.{
  Crypto, KeyPair, Block, Certificate, pem_type_certificate, pem_type_rsa_private_key, decode_block,
  x509_key_pair, key_pem, gen_key_pair, new_server_key_pair, new_self_signed_ca_key_pair,
}
use image_registry_operator.Certs.Manager

-- What the code relies on: PEM and keys are read back as written, and a certificate that is created
-- parses to one with the template's DNS names, and with its CA flag if the template says that its basic
-- constraints are valid.
pub record CryptoLaws {K : Type 0} (c : Crypto K) : Type 0 where
  pub decode-encode : (b : Block) → c.pem_decode (c.pem_encode b) ≡ some b
  pub parse-marshal : (k : K) → c.parse_private_key (c.marshal_private_key k) ≡ ok k
  pub parse-create :
      (t p : Certificate) (k s : K) (der : Text)
      → c.create_certificate t p k s ≡ ok der
      → (x : Certificate) × (c.parse_certificate der ≡ ok x)
        × (x.dns_names ≡ t.dns_names)
        × (x.is_ca ≡ (t.basic_constraints_valid && t.is_ca))

module _ {K : Type 0} (c : Crypto K) (laws : CryptoLaws c) where
  gen_key_pair-ok :
      (t : Certificate) (bits : ℕ) (ca : Option (KeyPair K)) (p : KeyPair K)
      → gen_key_pair c t bits ca ≡ ok p
      → (der : Text) × (x : Certificate) × (p.signed_cert_pem
          ≡ c.pem_encode (record { type = pem_type_certificate; bytes = der }))
        × (c.parse_certificate der ≡ ok x)
        × (x.dns_names ≡ t.dns_names)
        × (x.is_ca ≡ (t.basic_constraints_valid && t.is_ca))
  unfolding gen_key_pair
  gen_key_pair-ok t bits ca p e = elim (Result-cases (c.generate_key bits)) [
    | inr (x, q) ↦ absurd (ground (arith, q, e))
    | inl (key, q) ↦
        let ca_cert : Certificate = elim ca [ none ↦ t | some p ↦ p.x509_cert ] in
        let sign_key : K = elim ca [ none ↦ key | some p ↦ p.rsa_key ] in
        elim (Result-cases (c.create_certificate t ca_cert key sign_key)) [
          | inr (x, r) ↦ absurd (ground (arith, q, r, e))
          | inl (der, r) ↦
              let (x, parsed, names, flag) = laws.parse-create t ca_cert key sign_key der r in
              (der, x, ground (arith, q, r, e), parsed, names, flag)
        ]
  ]

  read_key :
      (p : KeyPair K)
      → decode_block (c.pem_decode (key_pem c p)) pem_type_rsa_private_key
        ≡ done (ok (c.marshal_private_key p.rsa_key))
  unfolding decode_block text_eq
  read_key p = ap (λ b. decode_block b pem_type_rsa_private_key) (laws.decode-encode _)

  read_cert :
      (der pem : Text)
      → pem ≡ c.pem_encode (record { type = pem_type_certificate; bytes = der })
      → decode_block (c.pem_decode pem) pem_type_certificate ≡ done (ok der)
  unfolding decode_block text_eq
  read_cert der pem h =
      ap (λ s. decode_block (c.pem_decode s) pem_type_certificate) h
      ∙ ap (λ b. decode_block b pem_type_certificate) (laws.decode-encode _)

  x509_key_pair-written :
      (p : KeyPair K) (der : Text) (x : Certificate)
      → p.signed_cert_pem ≡ c.pem_encode (record { type = pem_type_certificate; bytes = der })
      → c.parse_certificate der ≡ ok x
      → x509_key_pair c (key_pem c p) p.signed_cert_pem p.ca_cert_pem
        ≡ done (ok (record p { x509_cert = x }))
  unfolding x509_key_pair
  x509_key_pair-written p der x h parsed =
      ground
        (arith, read_key p, laws.parse-marshal p.rsa_key, read_cert der p.signed_cert_pem h, parsed)

  -- What is read back of a generated key pair.
  cert_from_map-cert_to_map :
      (t : Certificate) (bits : ℕ) (ca : Option (KeyPair K)) (p : KeyPair K)
      → gen_key_pair c t bits ca ≡ ok p
      → (x : Certificate) × (Manager.cert_from_map c (some (Manager.cert_to_map c p))
          ≡ done (some (record p { x509_cert = x })))
        × (x.dns_names ≡ t.dns_names)
        × (x.is_ca ≡ (t.basic_constraints_valid && t.is_ca))
  unfolding Manager.cert_from_map lookup text_eq
  cert_from_map-cert_to_map t bits ca p e =
      let (der, x, pem, parsed, names, flag) = gen_key_pair-ok t bits ca p e in
      (
        x,
        ap (λ r. r >>= λ parsed. done (Manager.ok_pair parsed))
            (x509_key_pair-written p der x pem parsed),
        names,
        flag,
      )

  pub new_server_key_pair-ok :
      (now : Time) (names : List Text) (ca : Option (KeyPair K)) (p : KeyPair K)
      → new_server_key_pair c now names ca ≡ ok p
      → (x : Certificate) × (Manager.cert_from_map c (some (Manager.cert_to_map c p))
          ≡ done (some (record p { x509_cert = x })))
        × (x.dns_names ≡ names)
        × (x.is_ca ≡ false)
  unfolding new_server_key_pair
  new_server_key_pair-ok now [] ca p e = absurd (ground (arith, e))
  new_server_key_pair-ok now (name ∷ names) ca p e = cert_from_map-cert_to_map _ 2048 ca p e

  -- A self-signed CA that is generated is read back from the map it is stored as: the same key, the same
  -- PEM texts, and a certificate without DNS names that is a CA. PEM, keys and certificates are read
  -- back as documented.
  pub ca_key_pair_is_read_back :
      (now : Time) (common_name : Text) (p : KeyPair K)
      → new_self_signed_ca_key_pair c now common_name ≡ ok p
      → (x : Certificate) × (Manager.cert_from_map c (some (Manager.cert_to_map c p))
          ≡ done (some (record p { x509_cert = x })))
        × (x.dns_names ≡ [])
        × (x.is_ca ≡ true)
  unfolding new_self_signed_ca_key_pair
  ca_key_pair_is_read_back now common_name p e = cert_from_map-cert_to_map _ 4096 none p e
