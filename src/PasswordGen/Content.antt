-- ===== src/PasswordGen/Content.antt =====
-- What a generated password consists of, whatever the generators return.
use image_registry_operator.Prelude.{
  ℕ, zero, suc, ◌+◌, ◌≤◌, ◌<◌, ◌≡◌, refl, ◌∙◌, ap, sym, subst, Bool, true, false, [], ◌∷◌, length,
  ◌==◌, arith, any, ◌&&◌,
}
use image_registry_operator.Go.Text.{Text}
use image_registry_operator.PasswordGen.{
  Draws, intn, char_at, set_at, swap, shuffle, fill, generate_password, digit_chars, special_chars,
  all_chars,
}

abbrev one_if : Bool → ℕ
one_if true = 1
one_if false = 0

-- How many characters pass the test.
pub tally : (ℕ → Bool) → Text → ℕ
tally p [] = 0
tally p (c ∷ s) = one_if (p c) + tally p s

pub one_of : Text → ℕ → Bool
one_of chars c = any (λ d. d == c) chars

tally-set_at :
    (p : ℕ → Bool) (s : Text) (i v : ℕ)
    → i < length s
    → tally p (set_at s i v) + one_if (p (char_at s i)) ≡ tally p s + one_if (p v)
unfolding tally
tally-set_at p [] i v h = absurd (omega arith)
tally-set_at p (c ∷ s) zero v h = omega arith
tally-set_at p (c ∷ s) (suc i) v h = omega (arith, tally-set_at p s i v (omega arith))

length-set_at : (s : Text) (i v : ℕ) → length (set_at s i v) ≡ length s
length-set_at [] i v = refl
length-set_at (c ∷ s) zero v = refl
length-set_at (c ∷ s) (suc i) v = ap suc (length-set_at s i v)

char_at-set_at : (s : Text) (i j v : ℕ) → v ≡ char_at s j → char_at (set_at s i v) j ≡ char_at s j
char_at-set_at [] i j v e = refl
char_at-set_at (c ∷ s) zero zero v e = e
char_at-set_at (c ∷ s) zero (suc j) v e = refl
char_at-set_at (c ∷ s) (suc i) zero v e = refl
char_at-set_at (c ∷ s) (suc i) (suc j) v e = char_at-set_at s i j v e

tally-swap :
    (p : ℕ → Bool) (i j : ℕ) (s : Text)
    → i < length s
    → j < length s
    → tally p (swap i j s) ≡ tally p s
unfolding swap
tally-swap p i j s hi hj = omega (
  arith,
  tally-set_at p s i (char_at s j) hi,
  tally-set_at p (set_at s i (char_at s j)) j (char_at s i)
      (subst (λ n. j < n) (sym (length-set_at s i (char_at s j))) hj),
  ap (λ c. one_if (p c)) (char_at-set_at s i j (char_at s j) refl),
)

length-swap : (i j : ℕ) (s : Text) → length (swap i j s) ≡ length s
unfolding swap
length-swap i j s = length-set_at (set_at s i (char_at s j)) j _ ∙ length-set_at s i _

-- A shuffle keeps the length, and each test passes as often as before.
tally-shuffle :
    (p : ℕ → Bool) (rnd : Draws) (call n : ℕ) (s : Text)
    → n ≤ length s
    → (tally p (shuffle rnd call n s) ≡ tally p s) × (length (shuffle rnd call n s) ≡ length s)
unfolding shuffle
tally-shuffle p rnd call zero s h = (refl, refl)
tally-shuffle p rnd call (suc zero) s h = (refl, refl)
tally-shuffle p rnd call (suc (suc i)) s h =
    let j = intn rnd call (suc (suc i)) in
    let kept = length-swap (suc i) j s in
    let (t, l) = tally-shuffle p rnd (suc call) (suc i) (swap (suc i) j s) (omega arith) in
    (t ∙ tally-swap p (suc i) j s (omega arith) (omega arith), l ∙ kept)

length-fill : (rand : Draws) (call n : ℕ) → length (fill rand call n) ≡ n
unfolding fill
length-fill rand call zero = refl
length-fill rand call (suc n) = ap suc (length-fill rand (suc call) n)

tally-char_at : (chars : Text) (i : ℕ) → i < length chars → one_of chars (char_at chars i) ≡ true
unfolding one_of
tally-char_at [] i h = absurd (omega arith)
tally-char_at (c ∷ chars) zero h = ground arith
tally-char_at (c ∷ chars) (suc i) h = ground (arith, tally-char_at chars i)

tally-fill : (rand : Draws) (call n : ℕ) → tally (one_of all_chars) (fill rand call n) ≡ n
unfolding fill tally
tally-fill rand call zero = refl
tally-fill rand call (suc n) =
    rw (tally-char_at all_chars (intn rand call (length all_chars)) (omega arith))
      (omega (arith, tally-fill rand (suc call) n))

-- A test passes on the password as often as on the digit, the special character and the 14
-- characters of the global generator.
pub tally-generate_password :
    (p : ℕ → Bool) (rnd rand : Draws)
    → tally p (generate_password rnd rand)
      ≡ one_if (p (char_at digit_chars (intn rnd 0 10)))
        + (one_if (p (char_at special_chars (intn rnd 1 12))) + tally p (fill rand 0 14))
unfolding generate_password tally
tally-generate_password p rnd rand =
    (tally-shuffle p rnd 2 16 _ (omega (arith, length-fill rand 0 14))).0

one_if-true : (b : Bool) → b ≡ true → one_if b ≡ 1
one_if-true b h = rw h

every : (ℕ → Bool) → Text → Bool
every p [] = true
every p (c ∷ s) = p c && every p s

every-char_at :
    (p : ℕ → Bool) (s : Text) (i : ℕ) → every p s ≡ true → i < length s → p (char_at s i) ≡ true
unfolding every
every-char_at p [] i e h = absurd (omega arith)
every-char_at p (c ∷ s) zero e h = ground arith
every-char_at p (c ∷ s) (suc i) e h = ground (arith, every-char_at p s i)

alphabet :
    (every (one_of all_chars) digit_chars ≡ true) × (every (one_of all_chars) special_chars ≡ true)
unfolding every one_of
alphabet = (refl, refl)

length-generate_password : (rnd rand : Draws) → length (generate_password rnd rand) ≡ 16
unfolding generate_password
length-generate_password rnd rand =
    let buf : Text =
      char_at digit_chars (intn rnd 0 10)
      ∷ char_at special_chars (intn rnd 1 12)
      ∷ fill rand 0 14 in
    (tally-shuffle (one_of all_chars) rnd 2 16 buf (omega (arith, length-fill rand 0 14))).1
    ∙ ap (λ n. suc (suc n)) (length-fill rand 0 14)

-- A password has 16 characters, all of them of the alphabet, at least one digit and at least one
-- special character.
pub password_content :
    (rnd rand : Draws)
    → (length (generate_password rnd rand) ≡ 16)
      × (tally (one_of all_chars) (generate_password rnd rand) ≡ 16)
      × (1 ≤ tally (one_of digit_chars) (generate_password rnd rand))
      × (1 ≤ tally (one_of special_chars) (generate_password rnd rand))
password_content rnd rand =
    let i = intn rnd 0 10 in
    let j = intn rnd 1 12 in
    (
      length-generate_password rnd rand,
      omega (
        arith,
        tally-generate_password (one_of all_chars) rnd rand,
        tally-fill rand 0 14,
        one_if-true _ (every-char_at (one_of all_chars) digit_chars i alphabet.0 (omega arith)),
        one_if-true _ (every-char_at (one_of all_chars) special_chars j alphabet.1 (omega arith)),
      ),
      omega (
        arith,
        tally-generate_password (one_of digit_chars) rnd rand,
        one_if-true _ (tally-char_at digit_chars i (omega arith)),
      ),
      omega (
        arith,
        tally-generate_password (one_of special_chars) rnd rand,
        one_if-true _ (tally-char_at special_chars j (omega arith)),
      ),
    )

one_if-le : (b : Bool) → one_if b ≤ 1
one_if-le true = omega arith
one_if-le false = omega arith

-- At least 14 of the 16 characters are those of the global generator, whatever crypto/rand
-- returned: each test passes at least as often on the password as on what that generator drew, and
-- at most two times more.
pub global_generator_decides :
    (p : ℕ → Bool) (rnd rand : Draws)
    → (tally p (fill rand 0 14) ≤ tally p (generate_password rnd rand))
      × (tally p (generate_password rnd rand) ≤ tally p (fill rand 0 14) + 2)
global_generator_decides p rnd rand =
    let a = one_if-le (p (char_at digit_chars (intn rnd 0 10))) in
    let b = one_if-le (p (char_at special_chars (intn rnd 1 12))) in
    (
      omega (arith, tally-generate_password p rnd rand),
      omega (arith, tally-generate_password p rnd rand, a, b),
    )
