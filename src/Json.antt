-- ===== src/Json.antt =====
-- Strict JSON (`strictJSON` and `tokenValue` in validation.go), over the token stream that
-- encoding/json's Decoder gives for the bytes.
pub mod Print
use agro_chain.Base.{
  ℕ, zero, suc, String, Bool, true, false, not, ◌&&◌, ◌||◌, List, [], ◌∷◌, Option, none, some,
  contains, ◌==◌, if◌then◌else◌, ◌⊎◌,
}
use agro_chain.Codes.{Result, ok, err, invalid_schema, ◌>>=◌, ◌>>◌, fail_if}
use agro_chain.Text.{safe_string, valid_explanation}
use agro_chain.Text.Decimal.{parse_int, integer}

-- A JSON value: `map[string]any`, `[]any`, `json.Number`, `string`, `bool`, `nil`.
mutual
  pub data Value : Type 0 where
    obj : Fields → Value
    arr : Items → Value
    num : String → Value
    str : String → Value
    boolean : Bool → Value
    null : Value

  pub data Items : Type 0 where
    nil : Items
    cons : Value → Items → Items

  pub data Fields : Type 0 where
    end : Fields
    field : String → Value → Fields → Fields

pub data Token : Type 0 where
  open_array close_array open_object close_object null_token : Token
  number text : String → Token
  truth : Bool → Token

-- What `d.Token()` gives, call after call: tokens, and then io.EOF or an error.
pub data Stream : Type 0 where
  eof bad : Stream
  tok : Token → Stream → Stream

-- `d.More()`. Before an error it answers by the next byte; either answer leads to the error.
abbrev pub more : Stream → Bool
more eof = false
more bad = true
more (tok close_array s) = false
more (tok close_object s) = false
more (tok _ s) = true

-- The token that must close an array or an object.
unfoldable pub expect_array : Stream → Result Stream
expect_array (tok close_array s) = ok s
expect_array _ = err invalid_schema

unfoldable pub expect_object : Stream → Result Stream
expect_object (tok close_object s) = ok s
expect_object _ = err invalid_schema

unfoldable pub key_ok : List String → String → Bool
key_ok seen k =
    safe_string k
    && not (k == "__proto__" || k == "constructor" || k == "prototype")
    && not (contains k seen)

unfoldable pub number_ok : String → Bool
number_ok n = integer n && elim (parse_int n) [ none ↦ false | some i ↦ true ]

-- A value at its token, other than an array or an object.
unfoldable pub scalar : Token → Result Value
scalar (number n) = do fail_if (not (number_ok n)) invalid_schema; ok (num n)
scalar (text s) = do fail_if (not (safe_string s)) invalid_schema; ok (str s)
scalar (truth b) = ok (boolean b)
scalar _ = err invalid_schema

-- The value of the key `explanation`: one token, a text of its own grammar.
unfoldable pub explanation : Stream → Result (Value × Stream)
explanation (tok (text s) rest) = do
  fail_if (not (valid_explanation s)) invalid_schema
  ok (str s, rest)
explanation _ = err invalid_schema

-- The loop over an array; `room` is how many values may still come.
unfoldable pub array_loop :
    (Stream → Result (Value × Stream)) → ℕ → Stream → Result (Items × Stream)
array_loop value zero s = if more s then err invalid_schema else ok (nil, s)
array_loop value (suc room) s =
    let next =
      (value s >>= λ head.
      array_loop value room head.1 >>= λ tail. ok (cons head.0 tail.0, tail.1)) in
    if more s then next else ok (nil, s)

-- The loop over an object, with the keys that were seen.
unfoldable pub object_loop :
    (Stream → Result (Value × Stream)) → ℕ → List String → Stream → Result (Fields × Stream)
object_loop value zero seen s = if more s then err invalid_schema else ok (end, s)
object_loop value (suc room) seen (tok (text k) s) =
    fail_if (not (key_ok seen k)) invalid_schema
    >> ((if k == "explanation" then explanation s else value s) >>= λ head.
        object_loop value room (k ∷ seen) head.1 >>= λ tail. ok (field k head.0 tail.0, tail.1))
object_loop value (suc room) seen s = if more s then err invalid_schema else ok (end, s)

-- `depth > 8` is refused: the first argument is how many levels may still be entered.
unfoldable pub token_value : ℕ → Stream → Result (Value × Stream)
unfolding scalar
token_value zero s = err invalid_schema
token_value (suc d) (tok open_array s) = do
  items ← array_loop (token_value d) 16 s
  rest ← expect_array items.1
  ok (arr items.0, rest)
token_value (suc d) (tok open_object s) = do
  fields ← object_loop (token_value d) 32 [] s
  rest ← expect_object fields.1
  ok (obj fields.0, rest)
token_value (suc d) (tok t s) = do v ← scalar t; ok (v, s)
token_value (suc d) _ = err invalid_schema

-- A document is one value, and then the end.
unfoldable pub document : Value × Stream → Result Value
document (v, eof) = ok v
document _ = err invalid_schema

abbrev pub levels : ℕ
levels = 9

unfoldable pub read_document : Stream → Result Value
read_document s = token_value levels s >>= document

-- A read of a decoded object, and how many fields it has.
unfoldable pub find_field : String → Fields → Option Value
find_field k end = none
find_field k (field j v fs) = if j == k then some v else find_field k fs

unfoldable pub size : Fields → ℕ
size end = 0
size (field j v fs) = suc (size fs)
