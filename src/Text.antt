-- ===== src/Text.antt =====
-- The texts that the program tests and prints: identifiers and plain strings (`validID`,
-- `safeString`, `validExplanation` and the regular expressions of validation.go) and the decimal
-- numbers of Go's strconv and fmt.
pub mod Decimal
pub mod Hex
use Prim.Native.String.{len}
use agro_chain.Base.{
  ℕ, ◌≤◌, String, Bool, true, false, not, ◌&&◌, ◌||◌, List, [], ◌∷◌, ◌++◌, ltb, leb, eqb, length,
  all, codes, ◌==◌, if◌then◌else◌,
}

abbrev pub is_upper : ℕ → Bool
is_upper c = leb b'A' c && leb c b'Z'

abbrev pub is_digit : ℕ → Bool
is_digit c = leb b'0' c && leb c b'9'

abbrev pub is_hex : ℕ → Bool
is_hex c = is_digit c || (leb b'a' c && leb c b'f')

abbrev pub is_tail : ℕ → Bool
is_tail c = is_upper c || is_digit c

-- What follows the first letter of `^[A-Z]+-[A-Z0-9]{8,32}$`.
unfoldable pub identifier_rest : List ℕ → Bool
identifier_rest [] = false
identifier_rest (c ∷ cs) =
    let more = identifier_rest cs in
    if is_upper c
    then more
    else eqb c b'-' && all is_tail cs && leb 8 (length cs) && leb (length cs) 32

unfoldable pub identifier : List ℕ → Bool
unfolding identifier_rest
identifier [] = false
identifier (c ∷ cs) = is_upper c && identifier_rest cs

-- `^[0-9a-f]{64}$`
unfoldable pub hex_id : String → Bool
hex_id s = all is_hex (codes s) && eqb (length (codes s)) 64

-- `^[A-Z0-9_]{1,64}$`
unfoldable pub reference : String → Bool
reference s =
    all (λ c. is_tail c || eqb c b'_') (codes s)
    && leb 1 (length (codes s))
    && leb (length (codes s)) 64

-- `strings.HasPrefix`
unfoldable pub has_prefix : List ℕ → List ℕ → Bool
has_prefix cs [] = true
has_prefix [] (p ∷ ps) = false
has_prefix (c ∷ cs) (p ∷ ps) = eqb c p && has_prefix cs ps

unfoldable pub valid_id : String → String → Bool
unfolding has_prefix identifier
valid_id s prefix = has_prefix (codes s) (codes prefix ++ b'-' ∷ []) && identifier (codes s)

unfoldable pub safe_string : String → Bool
safe_string s = if ltb 512 (len s) then false else all (λ r. not (ltb r 32 || ltb 126 r)) (codes s)

-- `unicode.IsSpace`, which `strings.TrimSpace` trims by.
is_space : ℕ → Bool
is_space r =
    (leb 9 r && leb r 13)
    || eqb r 32
    || eqb r 0x85
    || eqb r 0xa0
    || eqb r 0x1680
    || (leb 0x2000 r && leb r 0x200a)
    || eqb r 0x2028
    || eqb r 0x2029
    || eqb r 0x202f
    || eqb r 0x205f
    || eqb r 0x3000

unfoldable pub valid_explanation : String → Bool
unfolding is_space
valid_explanation s =
    if all is_space (codes s) || ltb 2000 (length (codes s))
    then false
    else all (λ r. not (ltb r 32 || eqb r 127 || eqb r 0xfffd)) (codes s)

unfoldable pub member : String → Bool
member m = m == "ProducerMSP" || m == "LogisticsMSP" || m == "RetailerMSP" || m == "RegulatorMSP"

unfoldable pub valid_state : String → Bool
valid_state s =
    s == "CREATED"
    || s == "PICKUP_PENDING"
    || s == "IN_TRANSPORT"
    || s == "DELIVERY_PENDING"
    || s == "RECEIVED"
    || s == "RETAIL_REPORTED"
