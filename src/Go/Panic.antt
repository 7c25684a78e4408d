-- ===== src/Go/Panic.antt =====
-- A Go function that may panic: the results, or the text of the panic.
use image_registry_operator.Prelude.{◌≡◌, refl, ◌⊎◌, inl, inr}
use image_registry_operator.Go.Text.{Text, text}

pub data Panics {ℓ} (A : Type ℓ) : Type ℓ where
  done : A → Panics A
  panic : Text → Panics A

infixl 5 ◌>>=◌ ◌>>◌
abbrev pub ◌>>=◌ {ℓ κ} : {A : Type ℓ} {B : Type κ} → Panics A → (A → Panics B) → Panics B
done a >>= f = f a
panic s >>= f = panic s

abbrev pub ◌>>◌ {ℓ} : {B : Type ℓ} → Panics (Unit {0}) → Panics B → Panics B
m >> k = m >>= λ _. k

pub Panics-cases {ℓ} :
    {A : Type ℓ} → (m : Panics A) → ((t : Text) × (m ≡ panic t)) ⊎ ((a : A) × (m ≡ done a))
Panics-cases (done a) = inr (a, refl)
Panics-cases (panic t) = inl (t, refl)

-- The panic of a method call or a field access on a nil pointer.
abbrev pub nil_pointer {ℓ} : {A : Type ℓ} → Panics A
nil_pointer = panic (text "invalid memory address or nil pointer dereference")
