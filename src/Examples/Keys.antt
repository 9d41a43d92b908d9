-- ===== src/Examples/Keys.antt =====
-- Composite keys for the examples: every text ends in a mark that no character of it can be taken for.
use Prim.Native.Char.{Char, code}
use Prim.Native.String.{String}
use text.Mathlib.TextLemmas.{cons≢nil, head-eq_of_cons-eq, tail-eq_of_cons-eq}
use agro_chain.Base.{List, [], ◌∷◌, ◌≡◌, refl, sym, ap, arith}

abbrev escape : String → String → String
escape String.[] rest = String.◌∷◌ "b" rest
escape (String.◌∷◌ c s) rest = String.◌∷◌ "a" (String.◌∷◌ c (escape s rest))

abbrev escape_all : List String → String
escape_all [] = ""
escape_all (t ∷ ts) = escape t (escape_all ts)

abbrev pub escaped_key : String → List String → String
escaped_key kind attrs = escape kind (escape_all attrs)

marks : (c d : Char) → code c ≡ 97 → code d ≡ 98 → c ≡ d → ⊥
marks c d p q h = let same : code c ≡ code d = ap code h in omega arith

escape-injective :
    (s t rest rest' : String) → escape s rest ≡ escape t rest' → (s ≡ t) × (rest ≡ rest')
escape-injective String.[] String.[] rest rest' h = (refl, tail-eq_of_cons-eq h)
escape-injective String.[] (String.◌∷◌ d t) rest rest' h =
    absurd (marks _ _ refl refl (sym (head-eq_of_cons-eq h)))
escape-injective (String.◌∷◌ c s) String.[] rest rest' h =
    absurd (marks _ _ refl refl (head-eq_of_cons-eq h))
escape-injective (String.◌∷◌ c s) (String.◌∷◌ d t) rest rest' h =
    let inner = tail-eq_of_cons-eq h in
    let same = escape-injective s t rest rest' (tail-eq_of_cons-eq inner) in
    (rw (head-eq_of_cons-eq inner, same.0) refl, same.1)

escaped-ne-nil : (s rest : String) → escape s rest ≡ "" → ⊥
escaped-ne-nil String.[] rest h = cons≢nil h
escaped-ne-nil (String.◌∷◌ c s) rest h = cons≢nil h

escape_all-injective : (ts us : List String) → escape_all ts ≡ escape_all us → ts ≡ us
escape_all-injective [] [] h = refl
escape_all-injective [] (u ∷ us) h = absurd (escaped-ne-nil u (escape_all us) (sym h))
escape_all-injective (t ∷ ts) [] h = absurd (escaped-ne-nil t (escape_all ts) h)
escape_all-injective (t ∷ ts) (u ∷ us) h =
    let (same, rest) = escape-injective t u _ _ h in rw (same, escape_all-injective ts us rest) refl

pub escaped_key-injective :
    (k k' : String) (attrs attrs' : List String)
    → escaped_key k attrs ≡ escaped_key k' attrs'
    → (k ≡ k') × (attrs ≡ attrs')
escaped_key-injective k k' attrs attrs' h =
    let (same, rest) = escape-injective k k' _ _ h in (same, escape_all-injective attrs attrs' rest)
