-- ===== src/ImageSecret/Names.antt =====
-- The names of the account and of the secret of an ImagePullSecret or ImagePushSecret.
use image_registry_operator.Prelude.{ℕ, zero, suc, ◌≡◌, refl, ap, [], ◌∷◌, ◌++◌, arith}
use image_registry_operator.Prelude.Int.{ℤ}
use image_registry_operator.Go.Text.{
  Text, text, Lacks, cut_injective, cut_last_injective, format_int, format_int-injective,
  Lacks-format_int,
}
use image_registry_operator.V1alpha1.{ImageSecret, ImageSecretType, pull, push, type_text}

-- To read a name from the right of a prefix.
abbrev drop : ℕ → Text → Text
drop zero s = s
drop (suc n) [] = []
drop (suc n) (c ∷ s) = drop n s

abbrev first : Text → ℕ
first [] = 0
first (c ∷ s) = c

pub account_name : ImageSecretType → Text → Text → ℤ → Text
account_name mode namespace name rotation =
    type_text mode ++ b'.' ∷ (namespace ++ b'.' ∷ (name ++ b'.' ∷ format_int rotation))

unfoldable pub account_name_for_cr : ImageSecret → Text
account_name_for_cr cr =
    account_name cr.registry_access_mode cr.meta.namespace cr.meta.name cr.status.rotation

unfoldable pub secret_name_for_cr : ImageSecret → Text
secret_name_for_cr cr =
    text "image" ++ (type_text cr.registry_access_mode ++ (text "secret-" ++ cr.meta.name))

Lacks-type_text : (mode : ImageSecretType) → Lacks b'.' (type_text mode)
Lacks-type_text pull = omega arith
Lacks-type_text push = omega arith

type_text-injective : (m m' : ImageSecretType) → type_text m ≡ type_text m' → m ≡ m'
type_text-injective pull pull e = refl
type_text-injective pull push e = ground arith
type_text-injective push pull e = ground arith
type_text-injective push push e = refl

-- From an account's name the access mode, the namespace, the name and the rotation can be read
-- off, if namespaces have no dot: accounts of different resources, or of different rotations of
-- one, never share a name.
pub account_name-injective :
    (mode mode' : ImageSecretType) (namespace namespace' name name' : Text) (rotation rotation' : ℤ)
    → Lacks b'.' namespace
    → Lacks b'.' namespace'
    → account_name mode namespace name rotation ≡ account_name mode' namespace' name' rotation'
    → (mode ≡ mode') × (namespace ≡ namespace') × (name ≡ name') × (rotation ≡ rotation')
unfolding account_name
account_name-injective mode mode' namespace namespace' name name' rotation rotation' h h' e =
    let (modes, rest) =
      cut_injective b'.' (type_text mode) (type_text mode') _ _ (Lacks-type_text mode)
        (Lacks-type_text mode') e in
    let (spaces, rest') = cut_injective b'.' namespace namespace' _ _ h h' rest in
    let (names, counts) =
      cut_last_injective b'.' name name' _ _
        (Lacks-format_int b'.' rotation (omega arith) (omega arith))
        (Lacks-format_int b'.' rotation' (omega arith) (omega arith)) rest' in
    (
      type_text-injective mode mode' modes,
      spaces,
      names,
      format_int-injective rotation rotation' counts,
    )

-- Two CRs whose secrets have one name are of one access mode and one name.
pub secret_name_for_cr-injective :
    (a b : ImageSecret)
    → secret_name_for_cr a ≡ secret_name_for_cr b
    → (a.registry_access_mode ≡ b.registry_access_mode) × (a.meta.name ≡ b.meta.name)
unfolding secret_name_for_cr
secret_name_for_cr-injective a b e =
    named a.registry_access_mode b.registry_access_mode a.meta.name b.meta.name e
  where
    named :
        (m m' : ImageSecretType) (n n' : Text)
        → text "image" ++ (type_text m ++ (text "secret-" ++ n))
          ≡ text "image" ++ (type_text m' ++ (text "secret-" ++ n'))
        → (m ≡ m') × (n ≡ n')
    named pull pull n n' e = (refl, ap (drop 16) e)
    named pull push n n' e = absurd (omega (arith, ap (λ s. first (drop 7 s)) e))
    named push pull n n' e = absurd (omega (arith, ap (λ s. first (drop 7 s)) e))
    named push push n n' e = (refl, ap (drop 16) e)
