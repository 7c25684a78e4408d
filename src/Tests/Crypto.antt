-- ===== src/Tests/Crypto.antt =====
-- A toy implementation of crypto and encoding/pem that keeps its documented laws, for the tests of pkg/certs.
use image_registry_operator.Prelude.{
  ◌&&◌, ◌≡◌, refl, ap, subst, true, false, Bool, Option, none, some, List, [], ◌∷◌, ◌++◌, arith,
  length, ℕ, zero, suc,
}
use image_registry_operator.Prelude.Int.{pos}
use image_registry_operator.Go.Text.{Text, text}
use image_registry_operator.Go.Error.{failure, Result, ok, err}
use image_registry_operator.Go.Time.{seconds}
use image_registry_operator.Certs.KeyPair.{Crypto, Block, Certificate}
use image_registry_operator.Certs.Pem.{CryptoLaws}

-- A block is written with the length of its type in front.
abbrev pub take : ℕ → Text → Text
take zero s = []
take (suc n) [] = []
take (suc n) (c ∷ s) = c ∷ take n s

abbrev pub drop : ℕ → Text → Text
drop zero s = s
drop (suc n) [] = []
drop (suc n) (c ∷ s) = drop n s

abbrev pub read_block : Text → Option Block
read_block [] = none
read_block (n ∷ s) = some (record { type = take n s; bytes = drop n s })

take-append : (s t : Text) → take (length s) (s ++ t) ≡ s
take-append [] t = refl
take-append (c ∷ s) t = ap (λ r. c ∷ r) (take-append s t)

drop-append : (s t : Text) → drop (length s) (s ++ t) ≡ t
drop-append [] t = refl
drop-append (c ∷ s) t = drop-append s t

-- A certificate is written as its number of names, none or one, its CA flag and the name.
abbrev pub bit : Bool → ℕ
bit true = 1
bit false = 0

abbrev pub is_one : ℕ → Bool
is_one zero = false
is_one (suc n) = true

abbrev pub names_of : ℕ → Text → List Text
names_of zero s = []
names_of (suc n) s = s ∷ []

abbrev pub issue : List Text → Bool → Result Text
issue [] flag = ok (0 ∷ bit flag ∷ [])
issue (name ∷ []) flag = ok (1 ∷ bit flag ∷ name)
issue (name ∷ other ∷ names) flag = err (failure (text "too many names"))

abbrev pub certificate : List Text → Bool → Certificate
certificate names flag = record {
  serial_number = pos 0;
  organization = [];
  common_name = [];
  dns_names = names;
  not_before = seconds 0;
  not_after = seconds 1000;
  is_ca = flag;
  ext_key_usage = [];
  key_usage = [];
  basic_constraints_valid = true;
}

abbrev pub parse : Text → Result Certificate
parse [] = err (failure (text "empty"))
parse (n ∷ []) = err (failure (text "short"))
parse (n ∷ flag ∷ name) = ok (certificate (names_of n name) (is_one flag))

abbrev pub read_key : Text → Result ℕ
read_key [] = err (failure (text "empty"))
read_key (k ∷ s) = ok k

abbrev pub crypto : Crypto ℕ
crypto = record {
  pem_decode = read_block;
  pem_encode = λ b. length b.type ∷ (b.type ++ b.bytes);
  parse_private_key = read_key;
  marshal_private_key = λ k. k ∷ [];
  parse_certificate = parse;
  generate_key = λ bits. ok bits;
  create_certificate = λ template parent key signer.
      issue template.dns_names (template.basic_constraints_valid && template.is_ca);
  unix = λ t. t;
}

is_one-bit : (b : Bool) → is_one (bit b) ≡ b
is_one-bit true = refl
is_one-bit false = refl

Parses : List Text → Bool → Text → Type 0
Parses names flag der =
    (x : Certificate) × (parse der ≡ ok x) × (x.dns_names ≡ names) × (x.is_ca ≡ flag)

parse-issue :
    (names : List Text) (flag : Bool) (der : Text)
    → issue names flag ≡ ok der
    → Parses names flag der
unfolding Parses
parse-issue [] flag der e =
    let same : 0 ∷ bit flag ∷ [] ≡ der = ground (arith, e) in
    subst (Parses [] flag) same (certificate [] (is_one (bit flag)), refl, refl, is_one-bit flag)
parse-issue (name ∷ []) flag der e =
    let same : 1 ∷ bit flag ∷ name ≡ der = ground (arith, e) in
    subst (Parses (name ∷ []) flag) same
      (certificate (name ∷ []) (is_one (bit flag)), refl, refl, is_one-bit flag)
parse-issue (name ∷ other ∷ names) flag der e = absurd (ground (arith, e))

pub laws : CryptoLaws crypto
unfolding Parses
laws = record {
  decode-encode = λ b.
      ap some
        λ i. record { type = take-append b.type b.bytes i; bytes = drop-append b.type b.bytes i };
  parse-marshal = λ k. refl;
  parse-create =
      λ t p k s der e. parse-issue t.dns_names (t.basic_constraints_valid && t.is_ca) der e;
}
