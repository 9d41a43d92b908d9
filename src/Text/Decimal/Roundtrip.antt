-- ===== src/Text/Decimal/Roundtrip.antt =====
-- Decimal printing and parsing together: strconv.FormatInt and ParseInt.
use Prim.Native.Char.{Char, code}
use text.Mathlib.TextLemmas.{cons-append, nil-append}
use Prim.Native.String.{◌++◌ as join}
use agro_chain.Base.{
  ℕ, zero, suc, ◌+◌, ◌-◌, ◌*◌, ◌/◌, ◌%◌, ◌^◌, ◌≤◌, ◌<◌, String, true, false, List, [], ◌∷◌, ◌++◌,
  some, ◌≡◌, ◌∙◌, refl, ap, arith, ltb, eqb, length, all, codes, Bool-cases, inl, inr,
}
use agro_chain.Base.Int.{pos}
use agro_chain.Text.Decimal.{
  is_digit, digits_value, digit_text, print_digits, unsigned, in_range, parse_codes, parse_int,
  format_int,
}

pub append_one :
    (c : Char) (out : String) → codes (join (String.◌∷◌ c String.[]) out) ≡ code c ∷ codes out
append_one c out = ap codes (cons-append c "" out ∙ ap (λ s. String.◌∷◌ c s) (nil-append out))

digit_codes :
    (n : ℕ) → n < 10 → (out : String) → codes (join (digit_text n) out) ≡ (b'0' + n) ∷ codes out
unfolding digit_text
digit_codes n h out = ground (
  arith,
  append_one "0" out,
  append_one "1" out,
  append_one "2" out,
  append_one "3" out,
  append_one "4" out,
  append_one "5" out,
  append_one "6" out,
  append_one "7" out,
  append_one "8" out,
  append_one "9" out,
)

-- The digits that a text begins with: at least one, and their value.
abbrev Digits : ℕ → List ℕ → Type 0
Digits n ds = (all is_digit ds ≡ true) × (1 ≤ length ds) × (digits_value 0 ds ≡ n)

digits_value-append :
    (acc d : ℕ) (ds : List ℕ)
    → digits_value acc (ds ++ d ∷ []) ≡ digits_value acc ds * 10 + (d - b'0')
unfolding digits_value
digits_value-append acc d [] = refl
digits_value-append acc d (e ∷ ds) = digits_value-append (acc * 10 + (e - b'0')) d ds

all-append :
    (d : ℕ) (ds : List ℕ)
    → all is_digit ds ≡ true
    → is_digit d ≡ true
    → all is_digit (ds ++ d ∷ []) ≡ true
all-append d [] h k = ground arith
all-append d (e ∷ ds) h k = ground (arith, all-append d ds)

length-append : (d : ℕ) (ds : List ℕ) → 1 ≤ length (ds ++ d ∷ [])
length-append d [] = ground arith
length-append d (e ∷ ds) = ground arith

append-cons : (ds : List ℕ) (d : ℕ) (rest : List ℕ) → ds ++ (d ∷ rest) ≡ (ds ++ d ∷ []) ++ rest
append-cons [] d rest = refl
append-cons (e ∷ ds) d rest = ap (λ r. e ∷ r) (append-cons ds d rest)

append-empty : (ds : List ℕ) → ds ++ [] ≡ ds
append-empty [] = refl
append-empty (e ∷ ds) = ap (λ r. e ∷ r) (append-empty ds)

-- So many rounds and one print every number below this.
abbrev bound : ℕ → ℕ
bound zero = 10
bound (suc f) = bound f * 10

abbrev Printed : ℕ → ℕ → String → Type 0
Printed f n out =
    (ds : List ℕ) × Digits n ds × (codes (print_digits (suc f) n out) ≡ ds ++ codes out)

one_digit : (f n : ℕ) (out : String) → n < 10 → ltb n 10 ≡ true → Printed f n out
unfolding print_digits digits_value
one_digit f n out h t =
    ((b'0' + n) ∷ [], (ground arith, ground arith, ground arith), rw t (digit_codes n h out))

more_digits :
    (f n : ℕ) (out : String)
    → ltb n 10 ≡ false
    → Printed f (n / 10) (join (digit_text (n % 10)) out)
    → Printed (suc f) n out
unfolding print_digits
more_digits f n out t (ds, (digits, some_digit, value), text) = (
  ds ++ (b'0' + n % 10) ∷ [],
  (
    all-append _ ds digits (ground arith),
    length-append _ ds,
    digits_value-append 0 (b'0' + n % 10) ds ∙ rw value (omega arith),
  ),
  rw t (
      text
      ∙ ap (λ r. ds ++ r) (digit_codes (n % 10) (omega arith) out)
      ∙ append-cons ds (b'0' + n % 10) (codes out)),
)

printed : (f n : ℕ) (out : String) → n < bound f → Printed f n out
printed zero n out h = one_digit zero n out h (ground arith)
printed (suc f) n out h = elim (Bool-cases (ltb n 10)) [
  | inl small ↦ one_digit (suc f) n out (ground arith) small
  | inr big ↦ more_digits f n out big (printed f (n / 10) _ (omega arith))
]

unsigned-Digits : (n : ℕ) (ds : List ℕ) → Digits n ds → unsigned ds ≡ some n
unfolding unsigned
unsigned-Digits n ds (digits, one, value) = rw (digits, value) (ground arith)

in_range_small : (n : ℕ) → n < 2 ^ 63 → in_range false (some n) ≡ some (pos n)
unfolding in_range
in_range_small n h = ground arith

first_digit :
    (c : ℕ) (cs : List ℕ)
    → all is_digit (c ∷ cs) ≡ true
    → (eqb c b'-' ≡ false) × (eqb c b'+' ≡ false)
first_digit c cs h = (ground arith, ground arith)

parsed-Digits : (n : ℕ) (ds : List ℕ) → Digits n ds → n < 2 ^ 63 → parse_codes ds ≡ some (pos n)
unfolding parse_codes
parsed-Digits n [] d h = ground arith
parsed-Digits n (c ∷ cs) d h =
    let (minus, plus) = first_digit c cs d.0 in
    rw (minus, plus, unsigned-Digits n (c ∷ cs) d) (in_range_small n h)

-- strconv.ParseInt reads back what strconv.FormatInt prints of a number from 0 to 2 ^ 63 - 1.
pub parse_int-format_int : (n : ℕ) → n < 2 ^ 63 → parse_int (format_int (pos n)) ≡ some (pos n)
unfolding parse_int format_int
parse_int-format_int n h =
    let (ds, digits, text) = printed 19 n "" (omega arith) in
    ap parse_codes (text ∙ append-empty ds) ∙ parsed-Digits n ds digits h
