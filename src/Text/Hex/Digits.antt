-- ===== src/Text/Hex/Digits.antt =====
-- Printed hexadecimal digits determine the bytes (`hex.EncodeToString` in evidence.go).
use Prim.Native.String.{◌++◌ as join}
use agro_chain.Base.{
  ℕ, ◌+◌, ◌-◌, ◌/◌, ◌%◌, ◌<◌, String, Bool, true, List, [], ◌∷◌, ◌≡◌, ◌∙◌, refl, sym, ap, arith,
  and-eq-true, all, codes, ltb, ltb→lt, if◌then◌else◌,
}
use agro_chain.Text.Decimal.Roundtrip.{append_one}
use agro_chain.Text.Hex.{hex_digit, hex_text}

-- The digits as code points, without texts.
abbrev pub digit_of : ℕ → ℕ
digit_of n = if ltb n 10 then b'0' + n else b'a' + (n - 10)

abbrev pub digits_of : List ℕ → List ℕ
digits_of [] = []
digits_of (b ∷ bs) = digit_of (b / 16) ∷ digit_of (b % 16) ∷ digits_of bs

-- Bytes in the sense of Go: numbers below 256.
abbrev pub is_byte : ℕ → Bool
is_byte b = ltb b 256

hex_digit-digit_of :
    (n : ℕ) → n < 16 → (out : String) → codes (join (hex_digit n) out) ≡ digit_of n ∷ codes out
unfolding hex_digit
hex_digit-digit_of n h out = ground (
  arith,
  append_one "0" out,
  append_one "1" out,
  append_one "2" out,
  append_one "3" out,
  append_one "4" out,
  append_one "5" out,
  append_one "6" out,
  append_one "7" out,
  append_one "8" out,
  append_one "9" out,
  append_one "a" out,
  append_one "b" out,
  append_one "c" out,
  append_one "d" out,
  append_one "e" out,
  append_one "f" out,
)

halves : (b : ℕ) → b < 256 → (b / 16 % 16 ≡ b / 16) × (b / 16 % 16 < 16) × (b % 16 < 16)
halves b h = (omega arith, omega arith, omega arith)

hex_text-digits_of : (bs : List ℕ) → all is_byte bs ≡ true → codes (hex_text bs) ≡ digits_of bs
unfolding hex_text
hex_text-digits_of [] h = refl
hex_text-digits_of (b ∷ bs) h =
    let (small, others) = and-eq-true (is_byte b) (all is_byte bs) h in
    let (same, high, low) = halves b (ltb→lt _ _ small) in
    hex_digit-digit_of (b / 16 % 16) high _
    ∙ ap (λ r. digit_of (b / 16 % 16) ∷ r) (hex_digit-digit_of (b % 16) low _)
    ∙ rw (same, hex_text-digits_of bs others) refl

digit_of-injective : (m n : ℕ) → m < 16 → n < 16 → digit_of m ≡ digit_of n → m ≡ n
digit_of-injective m n h k e = ground arith

heads : (m n : ℕ) (xs ys : List ℕ) → m ∷ xs ≡ n ∷ ys → (m ≡ n) × (xs ≡ ys)
heads m n xs ys h = (ground arith, ground arith)

rejoin : (a b : ℕ) → a / 16 ≡ b / 16 → a % 16 ≡ b % 16 → a ≡ b
rejoin a b h k = omega arith

digits_of-injective :
    (xs ys : List ℕ)
    → all is_byte xs ≡ true
    → all is_byte ys ≡ true
    → digits_of xs ≡ digits_of ys
    → xs ≡ ys
digits_of-injective [] [] h k e = refl
digits_of-injective [] (y ∷ ys) h k e = ground arith
digits_of-injective (x ∷ xs) [] h k e = ground arith
digits_of-injective (x ∷ xs) (y ∷ ys) h k e =
    let (hx, hxs) = and-eq-true (is_byte x) (all is_byte xs) h in
    let (hy, hys) = and-eq-true (is_byte y) (all is_byte ys) k in
    let (same_x, high_x, low_x) = halves x (ltb→lt _ _ hx) in
    let (same_y, high_y, low_y) = halves y (ltb→lt _ _ hy) in
    let (high, rest) = heads _ _ _ _ e in
    let (low, others) = heads _ _ _ _ rest in
    let up = digit_of-injective (x / 16) (y / 16) (omega arith) (omega arith) high in
    let down = digit_of-injective (x % 16) (y % 16) low_x low_y low in
    rw (rejoin x y up down, digits_of-injective xs ys hxs hys others) refl

-- The same text is printed only for the same bytes.
pub hex_text-injective :
    (xs ys : List ℕ)
    → all is_byte xs ≡ true
    → all is_byte ys ≡ true
    → hex_text xs ≡ hex_text ys
    → xs ≡ ys
hex_text-injective xs ys h k e =
    digits_of-injective xs ys h k
      (sym (hex_text-digits_of xs h) ∙ ap codes e ∙ hex_text-digits_of ys k)
