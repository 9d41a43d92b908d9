-- ===== src/Text/Decimal.antt =====
-- Decimal numbers: strconv.ParseInt, FormatInt and Atoi, fmt's `%010d`, and time.Parse of a date.
pub mod Roundtrip
use Prim.Native.String.{◌++◌ as join}
use agro_chain.Base.{
  ℕ, zero, suc, ◌+◌, ◌-◌, ◌*◌, ◌/◌, ◌%◌, ◌^◌, String, Bool, true, false, not, ◌&&◌, ◌||◌, List, [],
  ◌∷◌, Option, none, some, ltb, leb, eqb, length, all, codes, if◌then◌else◌,
}
use agro_chain.Base.Int.{ℤ, pos, negsuc}

abbrev is_digit : ℕ → Bool
is_digit c = leb b'0' c && leb c b'9'

positive : List ℕ → Bool
positive [] = false
positive (c ∷ cs) = leb b'1' c && leb c b'9' && all is_digit cs

integer_codes : List ℕ → Bool
integer_codes [] = false
integer_codes (c ∷ []) = eqb c b'0' || positive (c ∷ [])
integer_codes (c ∷ cs) = positive (c ∷ cs) || (eqb c b'-' && positive cs)

-- `^(0|-?[1-9][0-9]*)$`
unfoldable pub integer : String → Bool
unfolding integer_codes positive
integer s = integer_codes (codes s)

unfoldable pub digits_value : ℕ → List ℕ → ℕ
digits_value acc [] = acc
digits_value acc (c ∷ cs) = digits_value (acc * 10 + (c - b'0')) cs

-- The digits behind an optional sign.
unsigned : List ℕ → Option ℕ
unfolding digits_value
unsigned cs = if all is_digit cs && leb 1 (length cs) then some (digits_value 0 cs) else none

in_range : Bool → Option ℕ → Option ℤ
in_range minus none = none
in_range false (some n) = if ltb n (2 ^ 63) then some (pos n) else none
in_range true (some zero) = some (pos 0)
in_range true (some (suc n)) = if ltb n (2 ^ 63) then some (negsuc n) else none

parse_codes : List ℕ → Option ℤ
parse_codes [] = none
parse_codes (c ∷ cs) =
    if eqb c b'-'
    then in_range true (unsigned cs)
    else if eqb c b'+'
    then in_range false (unsigned cs)
    else in_range false (unsigned (c ∷ cs))

-- strconv.ParseInt(s, 10, 64), and strconv.Atoi where int has 64 bits.
unfoldable pub parse_int : String → Option ℤ
unfolding parse_codes unsigned in_range
parse_int s = parse_codes (codes s)

digit_text : ℕ → String
digit_text n =
    if eqb n 0
    then "0"
    else if eqb n 1
    then "1"
    else if eqb n 2
    then "2"
    else if eqb n 3
    then "3"
    else if eqb n 4
    then "4"
    else if eqb n 5
    then "5"
    else if eqb n 6
    then "6"
    else if eqb n 7
    then "7"
    else if eqb n 8
    then "8"
    else "9"

-- 20 rounds print every number below 2 ^ 64.
print_digits : ℕ → ℕ → String → String
print_digits zero n out = out
print_digits (suc f) n out =
    let rest = print_digits f (n / 10) (join (digit_text (n % 10)) out) in
    if ltb n 10 then join (digit_text n) out else rest

-- strconv.FormatInt(n, 10)
unfoldable pub format_int : ℤ → String
unfolding print_digits digit_text
format_int (pos n) = print_digits 20 n ""
format_int (negsuc n) = join "-" (print_digits 20 (suc n) "")

zeros : ℕ → String
zeros zero = ""
zeros (suc n) = join "0" (zeros n)

-- fmt.Sprintf("%010d", n): the sign counts towards the width.
unfoldable pub format_010 : ℤ → String
unfolding zeros print_digits digit_text
format_010 (pos n) = let text = print_digits 20 n "" in join (zeros (10 - length (codes text))) text
format_010 (negsuc n) =
    let text = print_digits 20 (suc n) "" in join "-" (join (zeros (9 - length (codes text))) text)

two : ℕ → ℕ → ℕ
two a b = (a - b'0') * 10 + (b - b'0')

is_leap : ℕ → Bool
is_leap y = eqb (y % 4) 0 && (not (eqb (y % 100) 0) || eqb (y % 400) 0)

days_in : ℕ → Bool → ℕ
days_in m leap =
    if eqb m 2
    then (if leap then 29 else 28)
    else if eqb m 4 || eqb m 6 || eqb m 9 || eqb m 11
    then 30
    else 31

date_codes : List ℕ → Bool
date_codes (a ∷ b ∷ c ∷ d ∷ h ∷ e ∷ f ∷ i ∷ g ∷ j ∷ []) =
    let y = two a b * 100 + two c d in
    let m = two e f in
    let day = two g j in
    all is_digit (a ∷ b ∷ c ∷ d ∷ e ∷ f ∷ g ∷ j ∷ [])
    && eqb h b'-'
    && eqb i b'-'
    && leb 1 m
    && leb m 12
    && leb 1 day
    && leb day (days_in m (is_leap y))
date_codes _ = false

-- time.Parse("2006-01-02", s) succeeds and formats back to s.
unfoldable pub valid_date : String → Bool
unfolding date_codes two is_leap days_in
valid_date s = date_codes (codes s)

clock_codes : List ℕ → Bool
clock_codes (a ∷ b ∷ c ∷ d ∷ e ∷ f ∷ g ∷ h ∷ i ∷ j ∷ k ∷ l ∷ m ∷ n ∷ []) =
    all is_digit (b ∷ c ∷ e ∷ f ∷ h ∷ i ∷ k ∷ l ∷ m ∷ [])
    && eqb a b'T'
    && eqb d b':'
    && eqb g b':'
    && eqb j b'.'
    && eqb n b'Z'
    && leb (two b c) 23
    && leb (two e f) 59
    && leb (two h i) 59
clock_codes _ = false

date_time_codes : List ℕ → Bool
unfolding date_codes clock_codes
date_time_codes (a ∷ b ∷ c ∷ d ∷ e ∷ f ∷ g ∷ h ∷ i ∷ j ∷ rest) =
    date_codes (a ∷ b ∷ c ∷ d ∷ e ∷ f ∷ g ∷ h ∷ i ∷ j ∷ []) && clock_codes rest
date_time_codes _ = false

-- time.Parse("2006-01-02T15:04:05.000Z", s) succeeds and formats back to s.
unfoldable pub valid_date_time : String → Bool
unfolding date_time_codes two is_leap days_in
valid_date_time s = date_time_codes (codes s)
