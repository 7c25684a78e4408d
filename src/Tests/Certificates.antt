-- ===== src/Tests/Certificates.antt =====
-- pkg/certs and the root CA controller with keys and certificates of the toy implementation.
use image_registry_operator.Prelude.{
  ◌≡◌, refl, sym, ap, subst, ◌∙◌, true, false, Option, none, some, List, [], ◌∷◌, arith, ℕ,
}
use image_registry_operator.Prelude.Int.{◌+ℤ◌, ◌-ℤ◌, ◌≤ℤ◌}
use image_registry_operator.Go.Text.{Text, text, text_eq, is_empty}
use image_registry_operator.Go.Map.{lookup}
use image_registry_operator.Go.Error.{Error, Result, ok, err}
use image_registry_operator.Go.Panic.{Panics, done, ◌>>=◌}
use image_registry_operator.Go.Time.{Time, Duration, seconds, add_time, sub_time, max_int64}
use image_registry_operator.Kube.Meta.{new_meta, NamespacedName, Secret}
use image_registry_operator.Certs.KeyPair.{
  KeyPair, Certificate, gen_key_pair, new_server_key_pair, new_self_signed_ca_key_pair, ca_template,
  server_template, needs_renewal, next_renewal, decode_block, x509_key_pair,
}
use image_registry_operator.Certs.Pem.{ca_key_pair_is_read_back}
use image_registry_operator.Certs.Secrets.{
  server_cert_is_kept, user_ca_is_taken, renew_in_writes_managed, Written, Refuses,
}
use image_registry_operator.Certs.Manager
use image_registry_operator.CaRoot.{reconcile, reconciled_when_due}
use image_registry_operator.Tests.Crypto.{certificate, crypto, laws}

abbrev names : List Text
names = text "registry" ∷ []

abbrev pair : KeyPair ℕ
pair = record {
  ca_cert_pem =
      crypto.pem_encode (record { type = text "CERTIFICATE"; bytes = 1 ∷ 0 ∷ text "registry" });
  signed_cert_pem =
      crypto.pem_encode (record { type = text "CERTIFICATE"; bytes = 1 ∷ 0 ∷ text "registry" });
  x509_cert = server_template crypto (seconds 0) (text "registry") [];
  rsa_key = 2048;
}

made : new_server_key_pair crypto (seconds 0) names none ≡ ok pair
unfolding new_server_key_pair gen_key_pair
made = refl

abbrev ca_pair : KeyPair ℕ
ca_pair = record {
  ca_cert_pem = crypto.pem_encode (record { type = text "CERTIFICATE"; bytes = 0 ∷ 1 ∷ [] });
  signed_cert_pem = crypto.pem_encode (record { type = text "CERTIFICATE"; bytes = 0 ∷ 1 ∷ [] });
  x509_cert = ca_template crypto (seconds 0) (text "ca");
  rsa_key = 4096;
}

ca_made : new_self_signed_ca_key_pair crypto (seconds 0) (text "ca") ≡ ok ca_pair
unfolding new_self_signed_ca_key_pair gen_key_pair
ca_made = refl

ca_key_pair_is_read_back_example :
    (x : Certificate) × (Manager.cert_from_map crypto (some (Manager.cert_to_map crypto ca_pair))
      ≡ done (some (record ca_pair { x509_cert = x })))
    × (x.dns_names ≡ [])
    × (x.is_ca ≡ true)
ca_key_pair_is_read_back_example =
    ca_key_pair_is_read_back crypto laws (seconds 0) (text "ca") ca_pair ca_made

abbrev managed : Secret
managed = record {
  meta = record (new_meta (text "infra") (text "registry-tls")) {
    uid = text "u7";
    labels = (Manager.label_managed_by, Manager.operator_name) ∷ [];
  };
  type = Manager.secret_type_tls;
  contents = some (Manager.cert_to_map crypto pair);
}

abbrev request : Manager.Request crypto
request = Manager.server_request crypto ok [] names none

abbrev pub stored_pair : KeyPair ℕ
stored_pair = record pair { x509_cert = certificate names false }

read_back : Manager.cert_from_map crypto managed.contents ≡ done (some stored_pair)
unfolding Manager.cert_from_map x509_key_pair decode_block lookup text_eq
read_back = refl

labelled : Manager.is_managed crypto managed ≡ true
unfolding lookup text_eq
labelled = refl

not_due : needs_renewal (seconds 10) (certificate names false) ≡ false
unfolding needs_renewal next_renewal sub_time ◌+ℤ◌ ◌-ℤ◌
not_due = refl

fresh :
    (q : KeyPair ℕ)
    → Manager.cert_from_map crypto managed.contents ≡ done (some q)
    → needs_renewal (seconds 10) q.x509_cert ≡ false
fresh q e =
    let same : stored_pair ≡ q = ground (arith, sym read_back ∙ e) in
    subst (λ (x : KeyPair ℕ). needs_renewal (seconds 10) x.x509_cert ≡ false) same not_due

server_cert_is_kept_example :
    (q : KeyPair ℕ) × (q.rsa_key ≡ 2048)
    × (Manager.renew_in crypto request (seconds 10) managed
        ≡ done (some q, ok (Manager.adopt crypto request managed)))
server_cert_is_kept_example =
    server_cert_is_kept crypto laws ok [] names none (seconds 0) (seconds 10) pair managed made refl
      refl labelled fresh

renewed :
    Manager.renew_in crypto request (seconds 10) managed
    ≡ done (some stored_pair, ok (Manager.adopt crypto request managed))
unfolding Manager.renew_in Manager.cert_from_map Manager.cond_server_cert Manager.equal_names
    x509_key_pair decode_block lookup text_eq needs_renewal next_renewal sub_time ◌+ℤ◌ ◌-ℤ◌ is_empty
renewed = refl

uid_given : is_empty managed.meta.uid ≡ false
unfolding is_empty
uid_given = refl

renew_in_writes_managed_example :
    (Manager.is_managed crypto managed ≡ true)
    × Written crypto managed (some stored_pair) (Manager.adopt crypto request managed)
renew_in_writes_managed_example =
    renew_in_writes_managed crypto request (seconds 10) managed managed (some stored_pair)
      (Manager.adopt crypto request managed) refl uid_given renewed

-- A CA secret that the user made, and a `CreateOrUpdate` that finds it and writes the changed one.
abbrev pub foreign : Secret
foreign = record managed { meta = record managed.meta { labels = [] } }

abbrev passed_on :
    Secret
    → Option (KeyPair ℕ) × Result Secret
    → Panics (Option (KeyPair ℕ) × Option Error × Secret)
passed_on s (cert, err e) = done (cert, some e, s)
passed_on s (cert, ok changed) = done (cert, none, changed)

abbrev pub create_or_update : Manager.CreateOrUpdate crypto Secret
create_or_update new change s = change s >>= passed_on s

abbrev ca_key : NamespacedName
ca_key = record { namespace = text "infra"; name = text "image-registry-root-ca" }

refuses : Refuses crypto create_or_update ca_key foreign foreign
refuses f cert e h = ap (λ r. r >>= passed_on foreign) h

is_foreign : Manager.is_managed crypto foreign ≡ false
unfolding lookup text_eq
is_foreign = refl

abbrev pub now : Time
now = seconds 10

pub taken :
    Manager.renew_root_ca_cert_secret crypto create_or_update ca_key now foreign
    ≡ done ((some stored_pair, none), foreign)
unfolding Manager.renew_root_ca_cert_secret Manager.renew_cert_secret Manager.renew_in
    Manager.cert_from_map x509_key_pair decode_block lookup text_eq is_empty needs_renewal
    next_renewal sub_time ◌+ℤ◌ ◌-ℤ◌
taken = refl

user_ca_is_taken_example :
    Manager.renew_root_ca_cert_secret crypto create_or_update ca_key now foreign
    ≡ done ((some stored_pair, none), foreign)
unfolding needs_renewal next_renewal sub_time ◌+ℤ◌ ◌-ℤ◌
user_ca_is_taken_example =
    user_ca_is_taken crypto create_or_update ca_key foreign stored_pair now foreign refuses
      read_back uid_given is_foreign

not_past : now ≤ℤ next_renewal stored_pair.x509_cert
unfolding next_renewal sub_time ◌+ℤ◌ ◌-ℤ◌
not_past = omega arith

near : next_renewal stored_pair.x509_cert -ℤ now +ℤ seconds 30 ≤ℤ max_int64
unfolding next_renewal sub_time ◌+ℤ◌ ◌-ℤ◌
near = omega arith

reconciled_when_due_example :
    (delay : Duration) × (reconcile crypto create_or_update ca_key now now foreign
      ≡ done (ok delay, foreign))
    × (needs_renewal (add_time now delay) (certificate names false) ≡ true)
reconciled_when_due_example =
    reconciled_when_due crypto create_or_update ca_key now now foreign foreign stored_pair taken
      not_past near
