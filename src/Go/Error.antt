-- ===== src/Go/Error.antt =====
-- Errors as values: what the operator tells apart, and the result of a fallible call.
use image_registry_operator.Prelude.{
  ◌≡◌, refl, ◌⊎◌, inl, inr, Bool, true, false, Option, none, some, ◌++◌,
}
use image_registry_operator.Go.Text.{Text, text}

-- `errors.IsNotFound` tells an API error with the reason NotFound from all others; the sentinels
-- are those of pkg/certs/certmanager.go; `wrap` is `fmt.Errorf("...: %w", err)`.
pub data Error : Type 0 where
  not_found : Text → Error
  failure : Text → Error
  unmanaged_valid_secret_exists : Error
  unmanaged_invalid_secret_exists : Error
  wrap : Text → Error → Error

pub data Result {ℓ} (A : Type ℓ) : Type ℓ where
  ok : A → Result A
  err : Error → Result A

infixl 5 ◌>>=◌
abbrev pub ◌>>=◌ {ℓ κ} : {A : Type ℓ} {B : Type κ} → Result A → (A → Result B) → Result B
err e >>= f = err e
ok a >>= f = f a

abbrev pub is_not_found : Error → Bool
is_not_found (not_found s) = true
is_not_found e = false

-- `errors.Unwrap`.
abbrev pub unwrap : Error → Option Error
unwrap (wrap s e) = some e
unwrap e = none

-- `err.Error()`.
unfoldable pub message : Error → Text
message (not_found s) = s
message (failure s) = s
message unmanaged_valid_secret_exists = text "refuse to overwrite valid unmanaged cert secret"
message unmanaged_invalid_secret_exists =
    text "refuse to overwrite invalid/renewable unmanaged cert secret"
message (wrap s e) = s ++ text ": " ++ message e

-- The error of a call that returns nothing else, `nil` being `none`.
abbrev pub error_of {ℓ} : {A : Type ℓ} → Result A → Option Error
error_of (ok a) = none
error_of (err e) = some e

-- To split on the result of a call and keep the equation.
pub Result-cases {ℓ} :
    {A : Type ℓ} (r : Result A) → ((a : A) × (r ≡ ok a)) ⊎ ((e : Error) × (r ≡ err e))
Result-cases (ok a) = inl (a, refl)
Result-cases (err e) = inr (e, refl)
