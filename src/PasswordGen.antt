-- ===== src/PasswordGen.antt =====
-- pkg/passwordgen/passwordgen.go. The random numbers are streams: `rnd` of the generator over
-- crypto/rand and `rand` of the global generator of math/rand, each entry reduced by `Intn`.
pub mod Content
use image_registry_operator.Prelude.{
  ℕ, zero, suc, ◌+◌, ◌-◌, ◌%◌, ◌^◌, ◌<◌, ◌≡◌, ◌⊎◌, inl, inr, refl, ap, ◌++◌, List, [], ◌∷◌, length,
  arith,
}
use image_registry_operator.Go.Text.{Text, text}
use image_registry_operator.Go.Error.{Result, ok, err, message, Result-cases}
use image_registry_operator.Go.Panic.{Panics, done, panic, ◌>>=◌}

abbrev pub digit_chars : Text
digit_chars = text "0123456789"

abbrev pub special_chars : Text
special_chars = text "=.+-_/[]{}@?"

abbrev pub all_chars : Text
all_chars =
    text "ABCDEFGHIJKLMNOPQRSTUVWXYZ"
    ++ text "abcdefghijklmnopqrstuvwxyz"
    ++ digit_chars
    ++ special_chars

-- The draws of a generator, one for each call.
abbrev pub Draws : Type 0
Draws = ℕ → ℕ

-- `Intn(n)` at the i-th call.
abbrev pub intn : Draws → ℕ → ℕ → ℕ
intn draws i n = draws i % n

-- `s[i]`, for an index within the bounds.
abbrev pub char_at : Text → ℕ → ℕ
char_at [] i = 0
char_at (c ∷ s) zero = c
char_at (c ∷ s) (suc i) = char_at s i

abbrev pub set_at : Text → ℕ → ℕ → Text
set_at [] i v = []
set_at (c ∷ s) zero v = v ∷ s
set_at (c ∷ s) (suc i) v = c ∷ set_at s i v

-- `buf[i], buf[j] = buf[j], buf[i]`
unfoldable pub swap : ℕ → ℕ → Text → Text
swap i j buf = set_at (set_at buf i (char_at buf j)) j (char_at buf i)

-- `Shuffle(n, swap)`: i goes from n - 1 down to 1, j is drawn from 0 to i. The draws of `rnd` go on
-- behind the two that the caller made.
unfoldable pub shuffle : Draws → ℕ → ℕ → Text → Text
shuffle rnd call zero buf = buf
shuffle rnd call (suc zero) buf = buf
shuffle rnd call (suc (suc i)) buf =
    shuffle rnd (suc call) (suc i) (swap (suc i) (intn rnd call (suc (suc i))) buf)

-- The characters of the loop from index 2, drawn from the global generator.
unfoldable pub fill : Draws → ℕ → ℕ → Text
fill rand call zero = []
fill rand call (suc n) =
    char_at all_chars (intn rand call (length all_chars)) ∷ fill rand (suc call) n

unfoldable pub generate_password : Draws → Draws → Text
generate_password rnd rand = shuffle rnd 2 16 (
    char_at digit_chars (intn rnd 0 (length digit_chars))
    ∷ char_at special_chars (intn rnd 1 (length special_chars))
    ∷ fill rand 0 14)

bit63 : (w v : ℕ) → w < 2 ^ 64 → w % 2 ^ 63 ≡ v → (w ≡ v) ⊎ (w ≡ v + 2 ^ 63)
bit63 w v h e = ground arith

-- `cryptoSource`, over a reader of which `binary.Read` takes a big-endian uint64.
module _ {R : Type 0} (read : R → Result ℕ × R) where
  unfoldable pub uint64 : R → Panics (ℕ × R)
  uint64 r = elim (read r).0 [ ok v ↦ done (v, (read r).1) | err e ↦ panic (message e) ]

  -- `s.Uint64() & ^uint64(1<<63)`
  unfoldable pub int63 : R → Panics (ℕ × R)
  int63 r = do (v, r') ← uint64 r; done (v % 2 ^ 63, r')

  -- What Int63 returns is an int64 that is not negative, and with the topmost bit the number read.
  pub int63-uint64 :
      (r r' : R) (v : ℕ)
      → ((w : ℕ) (x : R) → read r ≡ (ok w, x) → w < 2 ^ 64)
      → int63 r ≡ done (v, r')
      → (v < 2 ^ 63) × ((uint64 r ≡ done (v, r')) ⊎ (uint64 r ≡ done (v + 2 ^ 63, r')))
  unfolding int63 uint64
  int63-uint64 r r' v bound e = elim (Result-cases (read r).0) [
    | inr (x, p) ↦ absurd (ground (arith, p, e))
    | inl (w, p) ↦
        let low = bound w (read r).1 (ap (λ q. (q, (read r).1)) p) in
        let same : w % 2 ^ 63 ≡ v = ground (arith, p, e) in
        let last : (read r).1 ≡ r' = ground (arith, p, e) in
        elim (bit63 w v low same) [
          | inl h ↦ (omega arith, inl (ground (arith, p, h, last)))
          | inr h ↦ (omega arith, inr (ground (arith, p, h, last)))
        ]
  ]
