-- ===== src/Json/Print/Complete.antt =====
-- The limits of `tokenValue` (validation.go) compared with those of `Fits`, from the values to the reader.
use agro_chain.Base.{
  ℕ, zero, suc, String, Bool, true, false, List, [], ◌∷◌, ◌≡◌, ◌↔◌, ◌∙◌, refl, subst, ◌==◌,
  if◌then◌else◌,
}
use agro_chain.Codes.{Result, ok, ◌>>=◌, fail_if, from_bind, err-ne-ok, ok-injective}
use agro_chain.Json.{
  Value, obj, arr, num, str, boolean, null, Items, nil, cons, Fields, end, field, Stream, eof, bad,
  tok, close_array, close_object, text, key_ok, more, expect_array, expect_object, explanation,
  array_loop, object_loop, token_value, document, levels, read_document,
}
use agro_chain.Json.Print.{
  Entry, Explains, Fits, FitsItems, FitsFields, tokens_of, tokens_items, tokens_fields,
}
use agro_chain.Json.Print.Accepts.{value-Sound}

more-tokens_of : (v : Value) (rest : Stream) → more (tokens_of v rest) ≡ true
unfolding tokens_of
more-tokens_of (obj fs) rest = refl
more-tokens_of (arr xs) rest = refl
more-tokens_of (num n) rest = refl
more-tokens_of (str s) rest = refl
more-tokens_of (boolean b) rest = refl
more-tokens_of null rest = refl

explained : (v : Value) (rest : Stream) → Explains v → explanation (tokens_of v rest) ≡ ok (v, rest)
unfolding explanation tokens_of ◌>>=◌ fail_if
explained (str s) rest h = rw h refl
explained (obj fs) rest h = absurd h
explained (arr xs) rest h = absurd h
explained (num n) rest h = absurd h
explained (boolean b) rest h = absurd h
explained null rest h = absurd h

array_stop :
    (value : Stream → Result (Value × Stream)) (room : ℕ) (rest : Stream)
    → array_loop value room (tok close_array rest) ≡ ok (nil, tok close_array rest)
unfolding array_loop
array_stop value zero rest = refl
array_stop value (suc room) rest = refl

object_stop :
    (value : Stream → Result (Value × Stream)) (room : ℕ) (seen : List String) (rest : Stream)
    → object_loop value room seen (tok close_object rest) ≡ ok (end, tok close_object rest)
unfolding object_loop
object_stop value zero seen rest = refl
object_stop value (suc room) seen rest = refl

array_step :
    (value : Stream → Result (Value × Stream)) (room : ℕ) (s s' left : Stream) (v : Value)
    (vs : Items)
    → more s ≡ true
    → value s ≡ ok (v, s')
    → array_loop value room s' ≡ ok (vs, left)
    → array_loop value (suc room) s ≡ ok (cons v vs, left)
unfolding array_loop ◌>>=◌
array_step value room s s' left v vs m one others = rw (m, one) (rw others refl)

object_step :
    (value : Stream → Result (Value × Stream)) (room : ℕ) (seen : List String) (k : String)
    (s s' left : Stream) (v : Value) (fs : Fields)
    → key_ok seen k ≡ true
    → (if k == "explanation" then explanation s else value s) ≡ ok (v, s')
    → object_loop value room (k ∷ seen) s' ≡ ok (fs, left)
    → object_loop value (suc room) seen (tok (text k) s) ≡ ok (field k v fs, left)
unfolding object_loop ◌>>=◌ fail_if
object_step value room seen k s s' left v fs key one others = rw (key, one) (rw others refl)

entry :
    (t : Bool) (read : Stream → Result (Value × Stream)) (v : Value) (P : Type 0) (s : Stream)
    → Entry t (Explains v) P
    → (P → read (tokens_of v s) ≡ ok (v, s))
    → (if t then explanation (tokens_of v s) else read (tokens_of v s)) ≡ ok (v, s)
entry true read v P s e f = explained v s e
entry false read v P s e f = f e

mutual
  unfolding token_value tokens_of ◌>>=◌ fail_if expect_array expect_object

  value-tokens_of :
      (v : Value) (d : ℕ) (rest : Stream)
      → Fits d v
      → token_value d (tokens_of v rest) ≡ ok (v, rest)
  value-tokens_of v zero rest h = absurd h
  value-tokens_of (obj fs) (suc d) rest h = rw (object-tokens_of fs d 32 [] rest h) refl
  value-tokens_of (arr xs) (suc d) rest h = rw (array-tokens_of xs d 16 rest h) refl
  value-tokens_of (num n) (suc d) rest h = rw h refl
  value-tokens_of (str s) (suc d) rest h = rw h refl
  value-tokens_of (boolean b) (suc d) rest h = refl
  value-tokens_of null (suc d) rest h = absurd h

  array-tokens_of :
      (xs : Items) (d room : ℕ) (rest : Stream)
      → FitsItems d room xs
      → array_loop (token_value d) room (tokens_items xs (tok close_array rest))
        ≡ ok (xs, tok close_array rest)
  array-tokens_of nil d room rest h = array_stop (token_value d) room rest
  array-tokens_of (cons v vs) d zero rest h = absurd h
  array-tokens_of (cons v vs) d (suc room) rest h =
      array_step (token_value d) room _ _ _ v vs (more-tokens_of v _)
        (value-tokens_of v d (tokens_items vs (tok close_array rest)) h.0)
        (array-tokens_of vs d room rest h.1)

  object-tokens_of :
      (fs : Fields) (d room : ℕ) (seen : List String) (rest : Stream)
      → FitsFields d room seen fs
      → object_loop (token_value d) room seen (tokens_fields fs (tok close_object rest))
        ≡ ok (fs, tok close_object rest)
  object-tokens_of end d room seen rest h = object_stop (token_value d) room seen rest
  object-tokens_of (field k v fs) d zero seen rest h = absurd h
  object-tokens_of (field k v fs) d (suc room) seen rest h =
      object_step (token_value d) room seen k _ (tokens_fields fs (tok close_object rest)) _ v fs
        h.0
        (entry (k == "explanation") (token_value d) v (Fits d v) _ h.1
          (value-tokens_of v d (tokens_fields fs (tok close_object rest))))
        (object-tokens_of fs d room (k ∷ seen) rest h.2)

document_end : (v w : Value) (rest : Stream) → document (v, rest) ≡ ok w → (v ≡ w) × (rest ≡ eof)
unfolding document
document_end v w eof h = (ok-injective h, refl)
document_end v w bad h = absurd (err-ne-ok h)
document_end v w (tok t s) h = absurd (err-ne-ok h)

-- A token stream is accepted with a value exactly if the value fits into nine levels and the stream is
-- the tokens of that value and nothing more. So nesting deeper than nine, a 17th item, a 33rd field, a
-- repeated or forbidden key, an unsafe text, a number outside int64, null and trailing tokens are all
-- refused, and nothing else is.
pub read_document_iff :
    (s : Stream) (v : Value) → (read_document s ≡ ok v) ↔ (Fits levels v × (s ≡ tokens_of v eof))
unfolding read_document
read_document_iff s v = (
  λ h. from_bind _ _ h λ one read last.
      let (fits, tokens) = value-Sound levels s one.0 one.1 read in
      let (same, done) = document_end one.0 v one.1 last in
      (subst (Fits levels) same fits, tokens ∙ rw (same, done) refl),
  λ h.
      let read : token_value levels (tokens_of v eof) ≡ ok (v, eof) =
        value-tokens_of v levels eof h.0 in
      rw h.1 (unfold document ◌>>=◌ in rw read refl),
)
