-- ===== src/CaRoot.antt =====
-- pkg/controller/caroot/caroot_controller.go: the controller that renews the root CA.
use image_registry_operator.Prelude.{
  ◌≡◌, refl, true, not, ◌||◌, Option, none, some, List, [], ◌∷◌, if◌then◌else◌, arith,
}
use image_registry_operator.Prelude.Int.{◌+ℤ◌, ◌-ℤ◌, ◌≤ℤ◌, +ℤ_parts, -ℤ_parts, int_laws}
use image_registry_operator.Go.Text.{text_eq}
use image_registry_operator.Go.Error.{Error, Result, ok, err}
use image_registry_operator.Go.Panic.{Panics, done, nil_pointer, ◌>>=◌}
use image_registry_operator.Go.Time.{
  Time, Duration, sub_time, add_time, add_duration, delay_exact, seconds, max_int64,
}
use image_registry_operator.Kube.Meta.{NamespacedName, ObjectMeta}
use image_registry_operator.Certs.KeyPair.{Crypto, KeyPair, next_renewal, needs_renewal}
use image_registry_operator.Certs.Manager.{CreateOrUpdate, renew_root_ca_cert_secret}

unfoldable pub requeue_after : Time → Time → Duration
requeue_after renewal now = add_duration (sub_time renewal now) (seconds 30)

module _ {K : Type 0} (c : Crypto K) where
  abbrev pub answer : Time → Option (KeyPair K) → Option Error → Panics (Result Duration)
  answer now cert (some e) = done (err e)
  answer now none none = nil_pointer
  answer now (some p) none = done (ok (requeue_after (next_renewal p.x509_cert) now))

  -- `Reconcile`, with the clock at the renewal and at its end.
  unfoldable pub reconcile :
      {S : Type 0}
      → CreateOrUpdate c S
      → NamespacedName
      → Time
      → Time
      → S
      → Panics (Result Duration × S)
  reconcile create_or_update root_ca_secret_name now later s = do
    ((cert, e), t) ← renew_root_ca_cert_secret c create_or_update root_ca_secret_name now s
    result ← answer later cert e
    done (result, t)

-- `secretNameFilter.Map`: the requests for a changed object.
unfoldable pub map_secret : NamespacedName → Option ObjectMeta → List NamespacedName
map_secret name none = []
map_secret name (some m) =
    if not (text_eq m.name name.name) || not (text_eq m.namespace name.namespace)
    then []
    else name ∷ []

-- Where the root CA has a certificate, the controller asks for its next run at a time at which
-- that certificate needs renewal. The renewal date is not past, and 30 s behind it is within int64
-- from now.
pub reconciled_when_due :
    {K S : Type 0} (c : Crypto K) (create_or_update : CreateOrUpdate c S) (name : NamespacedName)
    (now later : Time) (s t : S) (p : KeyPair K)
    → renew_root_ca_cert_secret c create_or_update name now s ≡ done ((some p, none), t)
    → later ≤ℤ next_renewal p.x509_cert
    → next_renewal p.x509_cert -ℤ later +ℤ seconds 30 ≤ℤ max_int64
    → (delay : Duration) × (reconcile c create_or_update name now later s ≡ done (ok delay, t))
      × (needs_renewal (add_time later delay) p.x509_cert ≡ true)
unfolding reconcile requeue_after needs_renewal
reconciled_when_due c create_or_update name now later s t p renewed ahead bound =
    let n = next_renewal p.x509_cert in
    let exact = delay_exact n later (seconds 30) (omega int_laws) (omega arith) bound in
    (
      n -ℤ later +ℤ seconds 30,
      rw (renewed, exact) refl,
      ground (
        arith,
        -ℤ_parts n later,
        +ℤ_parts (n -ℤ later) (seconds 30),
        +ℤ_parts later (n -ℤ later +ℤ seconds 30),
      ),
    )
