-- ===== src/Json/Print.antt =====
-- The documents that are accepted, described on the values: which values fit the limits, and the
-- tokens of a value.
pub mod Accepts
pub mod Complete
use agro_chain.Base.{ℕ, zero, suc, String, Bool, true, false, List, [], ◌∷◌, ◌≡◌, ◌==◌}
use agro_chain.Text.{safe_string, valid_explanation}
use agro_chain.Json.{
  Value, obj, arr, num, str, boolean, null, Items, nil, cons, Fields, end, field, Stream, tok,
  open_array, close_array, open_object, close_object, null_token, number, text, truth, key_ok,
  number_ok,
}

-- The value of `explanation` is a text; every other value obeys the rules of values.
abbrev pub Entry : Bool → Type 0 → Type 0 → Type 0
Entry true explained other = explained
Entry false explained other = other

abbrev pub Explains : Value → Type 0
Explains (str s) = valid_explanation s ≡ true
Explains _ = ⊥

-- The value fits into so many levels: at most 16 items and 32 fields at each, no key twice, and every
-- text and number in its grammar.
abbrev mutual
  pub Fits : ℕ → Value → Type 0
  Fits zero v = ⊥
  Fits (suc d) (obj fs) = FitsFields d 32 [] fs
  Fits (suc d) (arr xs) = FitsItems d 16 xs
  Fits (suc d) (num n) = number_ok n ≡ true
  Fits (suc d) (str s) = safe_string s ≡ true
  Fits (suc d) (boolean b) = Unit
  Fits (suc d) null = ⊥

  pub FitsItems : ℕ → ℕ → Items → Type 0
  FitsItems d room nil = Unit
  FitsItems d zero (cons v vs) = ⊥
  FitsItems d (suc room) (cons v vs) = Fits d v × FitsItems d room vs

  pub FitsFields : ℕ → ℕ → List String → Fields → Type 0
  FitsFields d room seen end = Unit
  FitsFields d zero seen (field k v fs) = ⊥
  FitsFields d (suc room) seen (field k v fs) =
      (key_ok seen k ≡ true)
      × Entry (k == "explanation") (Explains v) (Fits d v)
      × FitsFields d room (k ∷ seen) fs

-- The tokens of a value, before a rest.
unfoldable mutual
  pub tokens_of : Value → Stream → Stream
  tokens_of (obj fs) rest = tok open_object (tokens_fields fs (tok close_object rest))
  tokens_of (arr xs) rest = tok open_array (tokens_items xs (tok close_array rest))
  tokens_of (num n) rest = tok (number n) rest
  tokens_of (str s) rest = tok (text s) rest
  tokens_of (boolean b) rest = tok (truth b) rest
  tokens_of null rest = tok null_token rest

  pub tokens_items : Items → Stream → Stream
  tokens_items nil rest = rest
  tokens_items (cons v vs) rest = tokens_of v (tokens_items vs rest)

  pub tokens_fields : Fields → Stream → Stream
  tokens_fields end rest = rest
  tokens_fields (field k v fs) rest = tok (text k) (tokens_of v (tokens_fields fs rest))
