-- ===== src/Certs/Renewal.antt =====
-- When a certificate is renewed (pkg/certs/keypair.go).
use image_registry_operator.Prelude.{ℕ, ◌+◌, ◌-◌, ◌*◌, ◌/◌, ◌^◌, ◌≤◌, ◌≡◌, ◌∙◌, ap, ltb, arith}
use image_registry_operator.Prelude.Int.{
  ℤ, pos, pos_part, neg_part, ◌+ℤ◌, ◌-ℤ◌, ◌≤ℤ◌, ltb_ℤ, int_laws, eq_of_parts, +ℤ_parts, sub_ℕ,
}
use image_registry_operator.Go.Time.{sub_time, sub_time_exact, after}
use image_registry_operator.Certs.KeyPair.{Certificate, next_renewal, needs_renewal, div_neg_4}

difference : (nb na : ℤ) (life : ℕ) → na ≡ nb +ℤ pos life → na -ℤ nb ≡ pos life
difference nb na life h =
    let p = ap pos_part h in
    let q = ap neg_part h in eq_of_parts (na -ℤ nb) (pos life) (omega int_laws)

lifetime :
    (cert : Certificate) (life : ℕ)
    → life ≤ 2 ^ 63 - 1
    → cert.not_after ≡ cert.not_before +ℤ pos life
    → sub_time cert.not_after cert.not_before ≡ pos life
lifetime cert life bound h =
    let d = difference cert.not_before cert.not_after life h in
    let p = ap pos_part d in
    let q = ap neg_part d in
    sub_time_exact cert.not_after cert.not_before (omega arith) (omega arith) ∙ d

next_renewal_lem :
    (cert : Certificate) (life : ℕ)
    → life ≤ 2 ^ 63 - 1
    → cert.not_after ≡ cert.not_before +ℤ pos life
    → next_renewal cert ≡ cert.not_after +ℤ sub_ℕ 0 (life / 4)
unfolding next_renewal
next_renewal_lem cert life bound h =
    ap (λ d. cert.not_after +ℤ div_neg_4 d) (lifetime cert life bound h)

due :
    (nb na : ℤ) (life age : ℕ)
    → na ≡ nb +ℤ pos life
    → ltb_ℤ (na +ℤ sub_ℕ 0 (life / 4)) (nb +ℤ pos age) ≡ ltb ((3 * life + 3) / 4) age
due nb na life age h =
    let p = ap pos_part h in
    let q = ap neg_part h in
    ground (arith, +ℤ_parts nb (pos life), +ℤ_parts nb (pos age), +ℤ_parts na (sub_ℕ 0 (life / 4)))

-- A certificate needs renewal exactly when more than three quarters of its lifetime, rounded up to
-- a nanosecond, have passed, and its renewal date is not behind its end. Its end is not before its
-- start, by less than 2^63 ns.
pub needs_renewal_in_last_quarter :
    (cert : Certificate) (life age : ℕ)
    → life ≤ 2 ^ 63 - 1
    → cert.not_after ≡ cert.not_before +ℤ pos life
    → (needs_renewal (cert.not_before +ℤ pos age) cert ≡ ltb ((3 * life + 3) / 4) age)
      × (next_renewal cert ≤ℤ cert.not_after)
unfolding needs_renewal
needs_renewal_in_last_quarter cert life age bound h =
    let r = next_renewal_lem cert life bound h in
    (
      ap (λ t. after (cert.not_before +ℤ pos age) t) r
          ∙ due cert.not_before cert.not_after life age h,
      rw r (ground (arith, +ℤ_parts cert.not_after (sub_ℕ 0 (life / 4)))),
    )
