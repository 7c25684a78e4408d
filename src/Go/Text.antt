-- ===== src/Go/Text.antt =====
-- Go strings as lists of bytes: literals, equality, `strings.SplitN(s, sep, 2)` at a one byte
-- separator, and `%d`.
use Prim.Native.Char.{code}
use mathlib.Core.Logic.{◌↔◌}
use image_registry_operator.Prelude.Int.{ℤ, pos, negsuc}
use image_registry_operator.Prelude.{
  ℕ, zero, suc, ◌+◌, ◌-◌, ◌*◌, ◌/◌, ◌%◌, ◌≤◌, ◌<◌, String, ◌≡◌, refl, ◌≢◌, sym, subst, ◌∙◌,
  Bool-cases, inl, inr, Bool, true, false, ◌&&◌, Option, none, some, List, [], ◌∷◌, ◌++◌, ◌==◌, ltb,
  if◌then◌else◌, arith, All, ap,
}

abbrev pub Text : Type 0
Text = List ℕ

-- The bytes of an ASCII literal.
abbrev pub text : String → Text
text String.[] = []
text (String.◌∷◌ c s) = code c ∷ text s

unfoldable pub text_eq : Text → Text → Bool
text_eq [] [] = true
text_eq (a ∷ s) (b ∷ t) = (a == b) && text_eq s t
text_eq s t = false

pub text_eq_iff : (s t : Text) → (text_eq s t ≡ true) ↔ (s ≡ t)
unfolding text_eq
text_eq_iff [] [] = ground arith
text_eq_iff [] (b ∷ t) = ground arith
text_eq_iff (a ∷ s) [] = ground arith
text_eq_iff (a ∷ s) (b ∷ t) = ground (arith, text_eq_iff s t)

pub text_eq_refl : (s : Text) → text_eq s s ≡ true
text_eq_refl s = (text_eq_iff s s).1 refl

pub text_eq_sym : (s t : Text) → text_eq s t ≡ text_eq t s
text_eq_sym s t = ground (arith, text_eq_iff s t, text_eq_iff t s)

unfoldable pub is_empty : Text → Bool
is_empty [] = true
is_empty (b ∷ s) = false

-- The byte does not stand in the text.
abbrev pub Lacks : ℕ → Text → Type 0
Lacks b = All (λ c. c ≢ b)

-- `strings.SplitN(s, sep, 2)`: the part before the first separator, and the part behind it if
-- there is a separator.
unfoldable pub split_two : ℕ → Text → Text × Option Text
split_two sep [] = ([], none)
split_two sep (b ∷ s) =
    let (before, behind) = split_two sep s in
    if b == sep then ([], some s) else (b ∷ before, behind)

pub split_two-append :
    (sep : ℕ) (s t : Text) → Lacks sep s → split_two sep (s ++ sep ∷ t) ≡ (s, some t)
unfolding split_two
split_two-append sep [] t h = ground arith
split_two-append sep (b ∷ s) t h = ground (arith, split_two-append sep s t h.1, h.0)

pub split_two-none : (sep : ℕ) (s : Text) → Lacks sep s → split_two sep s ≡ (s, none)
unfolding split_two
split_two-none sep [] h = refl
split_two-none sep (b ∷ s) h = ground (arith, split_two-none sep s h.1, h.0)

abbrev pub join_two : ℕ → Text → Option Text → Text
join_two sep before none = before
join_two sep before (some behind) = before ++ sep ∷ behind

-- The parts, with the separator between them, are the text, and the first part lacks it.
pub split_two-join :
    (sep : ℕ) (s : Text)
    → (join_two sep (split_two sep s).0 (split_two sep s).1 ≡ s) × Lacks sep (split_two sep s).0
unfolding split_two
split_two-join sep [] = (refl, tt)
split_two-join sep (b ∷ s) = ground (arith, split_two-join sep s)

pub Lacks-append : (b : ℕ) (s t : Text) → Lacks b s → Lacks b t → Lacks b (s ++ t)
Lacks-append b [] t h k = k
Lacks-append b (c ∷ s) t h k = (h.0, Lacks-append b s t h.1 k)

-- Texts cut at the first separator are equal part by part.
pub cut_injective :
    (sep : ℕ) (s s' t t' : Text)
    → Lacks sep s
    → Lacks sep s'
    → s ++ sep ∷ t ≡ s' ++ sep ∷ t'
    → (s ≡ s') × (t ≡ t')
cut_injective sep s s' t t' h h' e =
    ground (arith, ap (split_two sep) e, split_two-append sep s t h, split_two-append sep s' t' h')

abbrev rest_of : Text → Text
rest_of [] = []
rest_of (c ∷ s) = s

pub Lacks-middle : (b : ℕ) (s t : Text) → ¬ (Lacks b (s ++ b ∷ t))
Lacks-middle b [] t h = h.0 refl
Lacks-middle b (c ∷ s) t h = Lacks-middle b s t h.1

-- Texts cut at the last separator are equal part by part.
pub cut_last_injective :
    (sep : ℕ) (s s' t t' : Text)
    → Lacks sep t
    → Lacks sep t'
    → s ++ sep ∷ t ≡ s' ++ sep ∷ t'
    → (s ≡ s') × (t ≡ t')
cut_last_injective sep [] [] t t' h h' e = (refl, cc)
cut_last_injective sep [] (c ∷ s') t t' h h' e =
    absurd (Lacks-middle sep s' t' (subst (Lacks sep) (ap rest_of e) h))
cut_last_injective sep (c ∷ s) [] t t' h h' e =
    absurd (Lacks-middle sep s t (subst (Lacks sep) (sym (ap rest_of e)) h'))
cut_last_injective sep (c ∷ s) (c' ∷ s') t t' h h' e =
    let (p, q) = cut_last_injective sep s s' t t' h h' (ap rest_of e) in (cc, q)

-- `%d` of a number that is not negative: the digits that fuel allows, in front of `rest`.
digits : ℕ → ℕ → Text → Text
digits zero n rest = rest
digits (suc fuel) n rest =
    let front = digits fuel (n / 10) ((48 + n % 10) ∷ rest) in
    if ltb n 10 then (48 + n) ∷ rest else front

-- `n < 10 ^ n`, so a fuel of `n + 1` digits is enough.
unfoldable pub format_nat : ℕ → Text
unfolding digits
format_nat n = digits (suc n) n []

-- `%d` and `strconv.FormatInt(z, 10)`.
unfoldable pub format_int : ℤ → Text
format_int (pos n) = format_nat n
format_int (negsuc n) = b'-' ∷ format_nat (suc n)

-- The value that a text of digits stands for, read from the left on top of `acc`.
value : ℕ → Text → ℕ
value acc [] = acc
value acc (c ∷ s) = value (acc * 10 + (c - 48)) s

value-digits : (fuel n : ℕ) (rest : Text) → n < fuel → value 0 (digits fuel n rest) ≡ value n rest
unfolding digits value
value-digits zero n rest h = absurd (omega arith)
value-digits (suc fuel) n rest h = elim (Bool-cases (ltb n 10)) [
  | inl small ↦ rw small (ap (λ k. value k rest) (omega arith))
  | inr large ↦ rw large (
      value-digits fuel (n / 10) ((48 + n % 10) ∷ rest) (ground arith)
      ∙ ap (λ k. value k rest) (omega arith))
]

-- Every byte of a formatted number is a digit.
abbrev pub IsDigit : ℕ → Type 0
IsDigit c = (48 ≤ c) × (c ≤ 57)

digits-IsDigit : (fuel n : ℕ) (rest : Text) → All IsDigit rest → All IsDigit (digits fuel n rest)
unfolding digits
digits-IsDigit zero n rest h = h
digits-IsDigit (suc fuel) n rest h =
    ground (arith, digits-IsDigit fuel (n / 10) ((48 + n % 10) ∷ rest))

Lacks-digits : (b : ℕ) (s : Text) → ¬ (IsDigit b) → All IsDigit s → Lacks b s
Lacks-digits b [] h d = tt
Lacks-digits b (c ∷ s) h d = (λ e. h (subst IsDigit e d.0), Lacks-digits b s h d.1)

pub format_nat-injective : (m n : ℕ) → format_nat m ≡ format_nat n → m ≡ n
unfolding format_nat value
format_nat-injective m n e =
    sym (value-digits (suc m) m [] (omega arith))
    ∙ ap (value 0) e
    ∙ value-digits (suc n) n [] (omega arith)

pub Lacks-format_nat : (b n : ℕ) → ¬ (IsDigit b) → Lacks b (format_nat n)
unfolding format_nat
Lacks-format_nat b n h = Lacks-digits b _ h (digits-IsDigit (suc n) n [] tt)

abbrev pred_neg : ℕ → ℤ
pred_neg zero = negsuc 0
pred_neg (suc n) = negsuc n

-- A sign is no digit, so no two integers are printed alike.
pub format_int-injective : (a b : ℤ) → format_int a ≡ format_int b → a ≡ b
unfolding format_int
format_int-injective (pos m) (pos n) e = ap pos (format_nat-injective m n e)
format_int-injective (pos m) (negsuc n) e =
    absurd ((subst (Lacks b'-') e (Lacks-format_nat b'-' m (omega arith))).0 refl)
format_int-injective (negsuc m) (pos n) e =
    absurd ((subst (Lacks b'-') (sym e) (Lacks-format_nat b'-' n (omega arith))).0 refl)
format_int-injective (negsuc m) (negsuc n) e =
    ap pred_neg (format_nat-injective (suc m) (suc n) (ground arith))

pub Lacks-format_int : (b : ℕ) (z : ℤ) → ¬ (IsDigit b) → b'-' ≢ b → Lacks b (format_int z)
unfolding format_int
Lacks-format_int b (pos n) h k = Lacks-format_nat b n h
Lacks-format_int b (negsuc n) h k = (k, Lacks-format_nat b (suc n) h)
