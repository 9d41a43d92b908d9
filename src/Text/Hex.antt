-- ===== src/Text/Hex.antt =====
-- encoding/hex, and the eight bytes of a length (`commitment` in evidence.go).
pub mod Digits
use Prim.Native.String.{◌++◌ as join}
use agro_chain.Base.{
  ℕ, ◌+◌, ◌-◌, ◌*◌, ◌/◌, ◌%◌, ◌^◌, String, List, [], ◌∷◌, leb, eqb, if◌then◌else◌,
}

-- The value of a hexadecimal digit.
unfoldable pub hex_value : ℕ → ℕ
hex_value c = if leb c b'9' then c - b'0' else c - b'a' + 10

-- hex.DecodeString of a text that `hexID` matched.
unfoldable pub hex_bytes : List ℕ → List ℕ
unfolding hex_value
hex_bytes [] = []
hex_bytes (c ∷ []) = []
hex_bytes (c ∷ d ∷ cs) = (hex_value c * 16 + hex_value d) ∷ hex_bytes cs

unfoldable pub hex_digit : ℕ → String
hex_digit n =
    if eqb n 0
    then "0"
    else if eqb n 1
    then "1"
    else if eqb n 2
    then "2"
    else if eqb n 3
    then "3"
    else if eqb n 4
    then "4"
    else if eqb n 5
    then "5"
    else if eqb n 6
    then "6"
    else if eqb n 7
    then "7"
    else if eqb n 8
    then "8"
    else if eqb n 9
    then "9"
    else if eqb n 10
    then "a"
    else if eqb n 11
    then "b"
    else if eqb n 12
    then "c"
    else if eqb n 13
    then "d"
    else if eqb n 14
    then "e"
    else "f"

-- hex.EncodeToString
unfoldable pub hex_text : List ℕ → String
unfolding hex_digit
hex_text [] = ""
hex_text (b ∷ bs) = join (hex_digit (b / 16 % 16)) (join (hex_digit (b % 16)) (hex_text bs))

-- binary.BigEndian.PutUint64
unfoldable pub big_endian : ℕ → List ℕ
big_endian n =
    (n / 2 ^ 56 % 256)
    ∷ (n / 2 ^ 48 % 256)
    ∷ (n / 2 ^ 40 % 256)
    ∷ (n / 2 ^ 32 % 256)
    ∷ (n / 2 ^ 24 % 256)
    ∷ (n / 2 ^ 16 % 256)
    ∷ (n / 2 ^ 8 % 256)
    ∷ (n % 256)
    ∷ []
