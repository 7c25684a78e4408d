-- ===== src/Go/Base64.antt =====
-- base64.StdEncoding: `EncodeToString` and `DecodeString`, with padding and without the check of
-- the trailing bits. Decoding leaves out the line ends that Go skips.
use image_registry_operator.Prelude.{
  ℕ, ◌+◌, ◌-◌, ◌*◌, ◌/◌, ◌%◌, ◌<◌, ◌≡◌, ◌≢◌, refl, Bool, true, false, ◌&&◌, ◌||◌, not, Option, none,
  some, [], ◌∷◌, ◌==◌, ltb, leb, if◌then◌else◌, arith, All, select,
}
use mathlib.Core.Path.{ap, ap₂}
use image_registry_operator.Go.Text.{Text, text}
use image_registry_operator.Go.Error.{Result, ok, err, failure}

-- The character of a value below 64.
unfoldable pub digit : ℕ → ℕ
digit i =
    if ltb i 26
    then 65 + i
    else if ltb i 52
    then 71 + i
    else if ltb i 62
    then i - 4
    else if i == 62
    then b'+'
    else b'/'

unfoldable pub undigit : ℕ → Option ℕ
undigit c =
    if leb 65 c && leb c 90
    then some (c - 65)
    else if leb 97 c && leb c 122
    then some (c - 71)
    else if leb 48 c && leb c 57
    then some (c + 4)
    else if c == b'+'
    then some 62
    else if c == b'/'
    then some 63
    else none

undigit-digit : (i : ℕ) → i < 64 → undigit (digit i) ≡ some i
unfolding digit undigit
undigit-digit i h = ground arith

unfoldable pub encode : Text → Text
encode [] = []
encode (a ∷ []) = digit (a / 4) ∷ digit (a % 4 * 16) ∷ b'=' ∷ b'=' ∷ []
encode (a ∷ b ∷ []) = digit (a / 4) ∷ digit (a % 4 * 16 + b / 16) ∷ digit (b % 16 * 4) ∷ b'=' ∷ []
encode (a ∷ b ∷ c ∷ s) =
    digit (a / 4)
    ∷ digit (a % 4 * 16 + b / 16)
    ∷ digit (b % 16 * 4 + c / 64)
    ∷ digit (c % 64)
    ∷ encode s

abbrev corrupt : Result Text
corrupt = err (failure (text "illegal base64 data"))

-- One byte from two values, two from three, three from four.
abbrev first_byte : ℕ → ℕ → ℕ
first_byte i j = (i * 4 + j / 16) % 256

abbrev second_byte : ℕ → ℕ → ℕ
second_byte j k = (j * 16 + k / 4) % 256

abbrev third_byte : ℕ → ℕ → ℕ
third_byte k l = (k * 64 + l) % 256

-- A quantum of four characters in front of what is decoded behind it.
quantum : Option ℕ → Option ℕ → Option ℕ → Option ℕ → Result Text → Result Text
quantum (some i) (some j) (some k) (some l) (ok s) =
    ok (first_byte i j ∷ second_byte j k ∷ third_byte k l ∷ s)
quantum i j k l s = corrupt

-- The last quantum, padded by one or two `=`.
last_two : Option ℕ → Option ℕ → Option ℕ → Result Text
last_two (some i) (some j) (some k) = ok (first_byte i j ∷ second_byte j k ∷ [])
last_two i j k = corrupt

last_one : Option ℕ → Option ℕ → Result Text
last_one (some i) (some j) = ok (first_byte i j ∷ [])
last_one i j = corrupt

unfoldable pub is_nil : Text → Bool
is_nil [] = true
is_nil (c ∷ s) = false

quanta : Text → Result Text
unfolding undigit quantum last_two last_one is_nil
quanta [] = ok []
quanta (a ∷ b ∷ c ∷ d ∷ s) =
    let rest = quanta s in
    if d == b'=' && is_nil s
    then (if c == b'='
        then last_one (undigit a) (undigit b)
        else last_two (undigit a) (undigit b) (undigit c))
    else quantum (undigit a) (undigit b) (undigit c) (undigit d) rest
quanta s = corrupt

abbrev not_line_end : ℕ → Bool
not_line_end c = not (c == 10 || c == 13)

unfoldable pub decode : Text → Result Text
unfolding quanta
decode s = quanta (select not_line_end s)

abbrev pub IsBytes : Text → Type 0
IsBytes = All (λ c. c < 256)

-- What `digit` returns is no padding and no line end.
digit-plain : (i : ℕ) → i < 64 → (digit i ≢ b'=') × (digit i ≢ 10) × (digit i ≢ 13)
unfolding digit
digit-plain i h = (ground arith, ground arith, ground arith)

plain-lines : (c : ℕ) → (c ≢ 10) → (c ≢ 13) → not_line_end c ≡ true
plain-lines c h k = ground arith

digit-lines : (i : ℕ) → i < 64 → not_line_end (digit i) ≡ true
digit-lines i h = let p = digit-plain i h in plain-lines (digit i) p.1 p.2

select-encode : (s : Text) → IsBytes s → select not_line_end (encode s) ≡ encode s
unfolding encode
select-encode [] h = refl
select-encode (a ∷ []) h =
    rw (digit-lines (a / 4) (omega arith), digit-lines (a % 4 * 16) (omega arith))
select-encode (a ∷ b ∷ []) h = rw (
  digit-lines (a / 4) (omega arith),
  digit-lines (a % 4 * 16 + b / 16) (omega arith),
  digit-lines (b % 16 * 4) (omega arith),
)
select-encode (a ∷ b ∷ c ∷ s) h = rw (
  digit-lines (a / 4) (omega arith),
  digit-lines (a % 4 * 16 + b / 16) (omega arith),
  digit-lines (b % 16 * 4 + c / 64) (omega arith),
  digit-lines (c % 64) (omega arith),
  select-encode s h.1.1.1,
)

not_pad : (i : ℕ) → i < 64 → (digit i == b'=') ≡ false
not_pad i h = let p = digit-plain i h in ground (arith, p.0)

-- The bytes come back from the values that `encode` writes.
bytes_back :
    (a b c : ℕ)
    → a < 256
    → b < 256
    → c < 256
    → (first_byte (a / 4) (a % 4 * 16 + b / 16) ≡ a)
      × (second_byte (a % 4 * 16 + b / 16) (b % 16 * 4 + c / 64) ≡ b)
      × (third_byte (b % 16 * 4 + c / 64) (c % 64) ≡ c)
bytes_back a b c ha hb hc = omega arith

quanta-encode : (s : Text) → IsBytes s → quanta (encode s) ≡ ok s
unfolding quanta encode
quanta-encode [] h = refl
quanta-encode (a ∷ []) h =
    rw (undigit-digit (a / 4) (omega arith), undigit-digit (a % 4 * 16) (omega arith))
      (ap (λ x. ok (x ∷ [])) (omega arith))
quanta-encode (a ∷ b ∷ []) h =
    rw
      (
        not_pad (b % 16 * 4) (omega arith),
        undigit-digit (a / 4) (omega arith),
        undigit-digit (a % 4 * 16 + b / 16) (omega arith),
        undigit-digit (b % 16 * 4) (omega arith),
      )
      (ap₂ (λ x y. ok (x ∷ y ∷ [])) (omega arith) (omega arith))
quanta-encode (a ∷ b ∷ c ∷ s) h =
    rw
      (
        not_pad (c % 64) (omega arith),
        undigit-digit (a / 4) (omega arith),
        undigit-digit (a % 4 * 16 + b / 16) (omega arith),
        undigit-digit (b % 16 * 4 + c / 64) (omega arith),
        undigit-digit (c % 64) (omega arith),
        quanta-encode s h.1.1.1,
      )
      (let p = bytes_back a b c h.0 h.1.0 h.1.1.0 in cc (p.0, p.1, p.2))

-- Decoding gives back the bytes that were encoded.
pub decode-encode : (s : Text) → IsBytes s → decode (encode s) ≡ ok s
unfolding decode
decode-encode s h = rw (select-encode s h) (quanta-encode s h)
