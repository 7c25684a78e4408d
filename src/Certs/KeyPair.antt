-- ===== src/Certs/KeyPair.antt =====
-- pkg/certs/keypair.go.
use image_registry_operator.Prelude.{
  ℕ, suc, ◌*◌, ◌/◌, Bool, true, false, Option, none, some, List, [], ◌∷◌, if◌then◌else◌, ◌++◌,
}
use image_registry_operator.Prelude.Int.{ℤ, pos, negsuc, sub_ℕ}
use image_registry_operator.Go.Text.{Text, text, text_eq}
use image_registry_operator.Go.Error.{Result, ok, err, failure, ◌>>=◌}
use image_registry_operator.Go.Panic.{Panics, done, panic, nil_pointer}
use image_registry_operator.Go.Time.{Time, Duration, sub_time, add_time, after, seconds}

-- The key usages that the operator sets.
pub data KeyUsage : Type 0 where
  digital_signature : KeyUsage
  cert_sign : KeyUsage

pub data ExtKeyUsage : Type 0 where
  client_auth : ExtKeyUsage
  server_auth : ExtKeyUsage

-- x509.Certificate, with the fields that the operator sets or reads.
pub record Certificate : Type 0 where
  pub serial_number : ℤ
  pub organization : List Text
  pub common_name : Text
  pub dns_names : List Text
  pub not_before : Time
  pub not_after : Time
  pub is_ca : Bool
  pub ext_key_usage : List ExtKeyUsage
  pub key_usage : List KeyUsage
  pub basic_constraints_valid : Bool

-- pem.Block, without headers.
pub record Block : Type 0 where
  pub type : Text
  pub bytes : Text

-- The packages crypto and encoding/pem, for a type of RSA keys; the keys are generated and the
-- certificates signed with the random bytes of one run.
pub record Crypto (K : Type 0) : Type 0 where
  pub pem_decode : Text → Option Block
  pub pem_encode : Block → Text
  pub parse_private_key : Text → Result K
  pub marshal_private_key : K → Text
  pub parse_certificate : Text → Result Certificate
  pub generate_key : ℕ → Result K
  -- the template, the parent, the subject's key and the signer's key
  pub create_certificate : Certificate → Certificate → K → K → Result Text
  -- `Time.Unix`
  pub unix : Time → ℤ

pub record KeyPair (K : Type 0) : Type 0 where
  pub ca_cert_pem : Text
  pub signed_cert_pem : Text
  pub x509_cert : Certificate
  pub rsa_key : K

abbrev pub pem_type_certificate : Text
pem_type_certificate = text "CERTIFICATE"

abbrev pub pem_type_rsa_private_key : Text
pem_type_rsa_private_key = text "RSA PRIVATE KEY"

abbrev pub ca_ttl : Duration
ca_ttl = seconds (24 * 365 * 5 * 3600)

abbrev pub cert_ttl : Duration
cert_ttl = seconds (24 * 90 * 3600)

-- The content of the first block, which must have the type. Without a block the code panics.
unfoldable pub decode_block : Option Block → Text → Panics (Result Text)
decode_block none type = nil_pointer
decode_block (some b) type = done (
    if text_eq b.type type
    then ok b.bytes
    else err (failure (text "unexpected PEM type " ++ b.type ++ text " - expected " ++ type)))

module _ {K : Type 0} (c : Crypto K) where
  -- `X509KeyPair` behind the private key's block.
  abbrev parse_pair : Text → Text → Text → Panics (Result (KeyPair K))
  parse_pair key_der cert_pem ca_cert_pem = elim (c.parse_private_key key_der) [
    | err e ↦ done (err e)
    | ok key ↦ elim (decode_block (c.pem_decode cert_pem) pem_type_certificate) [
      | panic s ↦ panic s
      | done block ↦ done (do
        der ← block
        cert ← c.parse_certificate der
        ok (record {
          ca_cert_pem = ca_cert_pem;
          signed_cert_pem = cert_pem;
          x509_cert = cert;
          rsa_key = key;
        }))
    ]
  ]

  unfoldable pub x509_key_pair : Text → Text → Text → Panics (Result (KeyPair K))
  x509_key_pair key_pem cert_pem ca_cert_pem =
      elim (decode_block (c.pem_decode key_pem) pem_type_rsa_private_key) [
        | panic s ↦ panic s
        | done (err e) ↦ done (err e)
        | done (ok der) ↦ parse_pair der cert_pem ca_cert_pem
      ]

  abbrev pub key_pem : KeyPair K → Text
  key_pem p =
      c.pem_encode
        (record { type = pem_type_rsa_private_key; bytes = c.marshal_private_key p.rsa_key })

  -- `genKeyPair`: without a CA the certificate is signed by its own key.
  unfoldable pub gen_key_pair : Certificate → ℕ → Option (KeyPair K) → Result (KeyPair K)
  gen_key_pair cert bits ca = do
    key ← c.generate_key bits
    let ca_cert : Certificate = elim ca [ none ↦ cert | some p ↦ p.x509_cert ]
    let sign_key : K = elim ca [ none ↦ key | some p ↦ p.rsa_key ]
    der ← c.create_certificate cert ca_cert key sign_key
    let cert_pem = c.pem_encode (record { type = pem_type_certificate; bytes = der })
    ok (record {
      ca_cert_pem = elim ca [ none ↦ cert_pem | some p ↦ p.signed_cert_pem ];
      signed_cert_pem = cert_pem;
      x509_cert = cert;
      rsa_key = key;
    })

  abbrev pub ca_template : Time → Text → Certificate
  ca_template now common_name = record {
    serial_number = c.unix now;
    organization = text "Fake org" ∷ [];
    common_name = common_name;
    dns_names = [];
    not_before = now;
    not_after = add_time now ca_ttl;
    is_ca = true;
    ext_key_usage = client_auth ∷ server_auth ∷ [];
    key_usage = digital_signature ∷ cert_sign ∷ [];
    basic_constraints_valid = true;
  }

  unfoldable pub new_self_signed_ca_key_pair : Time → Text → Result (KeyPair K)
  new_self_signed_ca_key_pair now common_name = gen_key_pair (ca_template now common_name) 4096 none

  abbrev pub server_template : Time → Text → List Text → Certificate
  server_template now name names = record {
    serial_number = c.unix now;
    organization = [];
    common_name = name;
    dns_names = name ∷ names;
    not_before = now;
    not_after = add_time now cert_ttl;
    is_ca = false;
    ext_key_usage = client_auth ∷ server_auth ∷ [];
    key_usage = digital_signature ∷ [];
    basic_constraints_valid = true;
  }

  unfoldable pub new_server_key_pair : Time → List Text → Option (KeyPair K) → Result (KeyPair K)
  new_server_key_pair now [] ca = err (failure (text "gen server key pair: no dns names provided"))
  new_server_key_pair now (name ∷ names) ca = gen_key_pair (server_template now name names) 2048 ca

-- `d / -4` on durations, which rounds towards zero.
abbrev pub div_neg_4 : Duration → Duration
div_neg_4 (pos n) = sub_ℕ 0 (n / 4)
div_neg_4 (negsuc n) = pos (suc n / 4)

unfoldable pub next_renewal : Certificate → Time
next_renewal cert = add_time cert.not_after (div_neg_4 (sub_time cert.not_after cert.not_before))

unfoldable pub needs_renewal : Time → Certificate → Bool
needs_renewal now cert = after now (next_renewal cert)
