-- ===== src/Json/Print/Accepts.antt =====
-- The reader of validation.go (`tokenValue`) followed from a result back to the value and its tokens.
use agro_chain.Base.{
  ℕ, zero, suc, String, Bool, true, false, List, [], ◌∷◌, ◌≡◌, ◌∙◌, refl, ap, ◌==◌, not-eq-false,
  Bool-cases, inl, inr, if◌then◌else◌,
}
use agro_chain.Codes.{
  invalid_schema, Result, ok, err, ◌>>=◌, from_bind, from_guard, ok-injective, err-ne-ok,
}
use agro_chain.Json.{
  Value, obj, arr, str, Items, nil, cons, Fields, end, field, Stream, eof, bad, tok, open_array,
  close_array, open_object, close_object, null_token, number, text, truth, more, expect_array,
  expect_object, explanation, array_loop, object_loop, token_value,
}
use agro_chain.Json.Print.{
  Entry, Explains, Fits, FitsItems, FitsFields, tokens_of, tokens_items, tokens_fields,
}

-- What a successful read of a value says.
abbrev Sound : (Value → Type 0) → (Stream → Result (Value × Stream)) → Type 0
Sound P read =
    (s : Stream) (v : Value) (rest : Stream) → read s ≡ ok (v, rest) → P v × (s ≡ tokens_of v rest)

pair-eq :
    {A : Type 0} (x : A × Stream) {a : A} {r : Stream} → ok x ≡ ok (a, r) → (x.0 ≡ a) × (x.1 ≡ r)
pair-eq x h = (ap (λ y. y.0) (ok-injective h), ap (λ y. y.1) (ok-injective h))

explanation-Sound : Sound Explains explanation
unfolding explanation tokens_of
explanation-Sound (tok (text t) s) v rest h =
    from_guard _ _ _ h
      λ good h₁. let (e, q) = pair-eq (str t, s) h₁ in rw (← e, ← q) (not-eq-false _ good, refl)
explanation-Sound (tok (number t) s) v rest h = absurd (err-ne-ok h)
explanation-Sound (tok _ s) v rest h = absurd (err-ne-ok h)
explanation-Sound eof v rest h = absurd (err-ne-ok h)
explanation-Sound bad v rest h = absurd (err-ne-ok h)

array-Sound :
    (d : ℕ) (value : Stream → Result (Value × Stream))
    → Sound (Fits d) value
    → (room : ℕ) (s : Stream) (xs : Items) (rest : Stream) → array_loop value room s ≡ ok (xs, rest)
    → FitsItems d room xs × (s ≡ tokens_items xs rest)
unfolding array_loop tokens_of
array-Sound d value sound zero s xs rest h = elim (Bool-cases (more s)) [
  | inl e ↦ absurd (err-ne-ok (rw (e, array_loop) at h))
  | inr e ↦
      let stop : ok (nil, s) ≡ ok (xs, rest) = rw (e, array_loop) at h in
      let (a, b) = pair-eq (nil, s) stop in rw (← a, ← b) (tt, refl)
]
array-Sound d value sound (suc room) s xs rest h = elim (Bool-cases (more s)) [
  | inl e ↦
      let go : (value s >>= λ head.
      array_loop value room head.1 >>= λ tail. ok (cons head.0 tail.0, tail.1))
          ≡ ok (xs, rest) =
        rw (e, array_loop) at h in
      from_bind _ _ go λ head one h₁. from_bind _ _ h₁ λ tail others h₂.
        let (fits, read) = sound s head.0 head.1 one in
        let (all_fit, all_read) = array-Sound d value sound room head.1 tail.0 tail.1 others in
        let (a, b) = pair-eq (cons head.0 tail.0, tail.1) h₂ in
        rw (← a, ← b) ((fits, all_fit), read ∙ ap (tokens_of head.0) all_read)
  | inr e ↦
      let stop : ok (nil, s) ≡ ok (xs, rest) = rw (e, array_loop) at h in
      let (a, b) = pair-eq (nil, s) stop in rw (← a, ← b) (tt, refl)
]

entry-Sound :
    (d : ℕ) (value : Stream → Result (Value × Stream))
    → Sound (Fits d) value
    → (t : Bool)
    → Sound (λ v. Entry t (Explains v) (Fits d v)) (λ s. if t then explanation s else value s)
entry-Sound d value sound true = explanation-Sound
entry-Sound d value sound false = sound

object-stop :
    (d room : ℕ) (seen : List String) (s : Stream) (fs : Fields) (rest : Stream)
    → if◌then◌else◌ {A = Result (Fields × Stream)} (more s) (err invalid_schema) (ok (end, s))
      ≡ ok (fs, rest)
    → FitsFields d room seen fs × (s ≡ tokens_fields fs rest)
unfolding tokens_of
object-stop d room seen s fs rest h = elim (Bool-cases (more s)) [
  | inl e ↦ absurd (err-ne-ok (rw e at h))
  | inr e ↦
      let stop : ok (end, s) ≡ ok (fs, rest) = rw e at h in
      let (a, b) = pair-eq (end, s) stop in rw (← a, ← b) (tt, refl)
]

object-Sound :
    (d : ℕ) (value : Stream → Result (Value × Stream))
    → Sound (Fits d) value
    → (room : ℕ) (seen : List String) (s : Stream) (fs : Fields) (rest : Stream)
    → object_loop value room seen s ≡ ok (fs, rest)
    → FitsFields d room seen fs × (s ≡ tokens_fields fs rest)
unfolding object_loop tokens_of
object-Sound d value sound zero seen s fs rest h = object-stop d zero seen s fs rest h
object-Sound d value sound (suc room) seen (tok (text k) s) fs rest h = from_guard _ _ _ h λ key h₁.
    from_bind _ _ h₁ λ head one h₂. from_bind _ _ h₂ λ tail others h₃.
      let (fits, read) = entry-Sound d value sound (k == "explanation") s head.0 head.1 one in
      let (all_fit, all_read) =
        object-Sound d value sound room (k ∷ seen) head.1 tail.0 tail.1 others in
      let (a, b) = pair-eq (field k head.0 tail.0, tail.1) h₃ in
      rw (← a, ← b)
        (
          (not-eq-false _ key, fits, all_fit),
          ap (tok (text k)) (read ∙ ap (tokens_of head.0) all_read),
        )
object-Sound d value sound (suc room) seen (tok (number n) s) fs rest h =
    object-stop d (suc room) seen (tok (number n) s) fs rest h
object-Sound d value sound (suc room) seen (tok (truth b) s) fs rest h =
    object-stop d (suc room) seen (tok (truth b) s) fs rest h
object-Sound d value sound (suc room) seen (tok open_array s) fs rest h =
    object-stop d (suc room) seen (tok open_array s) fs rest h
object-Sound d value sound (suc room) seen (tok close_array s) fs rest h =
    object-stop d (suc room) seen (tok close_array s) fs rest h
object-Sound d value sound (suc room) seen (tok open_object s) fs rest h =
    object-stop d (suc room) seen (tok open_object s) fs rest h
object-Sound d value sound (suc room) seen (tok close_object s) fs rest h =
    object-stop d (suc room) seen (tok close_object s) fs rest h
object-Sound d value sound (suc room) seen (tok null_token s) fs rest h =
    object-stop d (suc room) seen (tok null_token s) fs rest h
object-Sound d value sound (suc room) seen eof fs rest h =
    object-stop d (suc room) seen eof fs rest h
object-Sound d value sound (suc room) seen bad fs rest h =
    object-stop d (suc room) seen bad fs rest h

closed_array : (s rest : Stream) → expect_array s ≡ ok rest → s ≡ tok close_array rest
unfolding expect_array
closed_array (tok close_array s) rest h = ap (tok close_array) (ok-injective h)
closed_array (tok _ s) rest h = absurd (err-ne-ok h)
closed_array eof rest h = absurd (err-ne-ok h)
closed_array bad rest h = absurd (err-ne-ok h)

closed_object : (s rest : Stream) → expect_object s ≡ ok rest → s ≡ tok close_object rest
unfolding expect_object
closed_object (tok close_object s) rest h = ap (tok close_object) (ok-injective h)
closed_object (tok _ s) rest h = absurd (err-ne-ok h)
closed_object eof rest h = absurd (err-ne-ok h)
closed_object bad rest h = absurd (err-ne-ok h)

pub value-Sound : (d : ℕ) → Sound (Fits d) (token_value d)
unfolding token_value tokens_of
value-Sound zero s v rest h = absurd (err-ne-ok h)
value-Sound (suc d) (tok open_array s) v rest h = from_bind _ _ h λ items read h₁.
    from_bind _ _ h₁ λ left close h₂.
      let (fits, tokens) =
        array-Sound d (token_value d) (value-Sound d) 16 s items.0 items.1 read in
      let (a, b) = pair-eq (arr items.0, left) h₂ in
      rw (← a, ← b)
        (
          fits,
          ap (tok open_array)
              (tokens ∙ ap (tokens_items items.0) (closed_array items.1 left close)),
        )
value-Sound (suc d) (tok open_object s) v rest h = from_bind _ _ h λ fields read h₁.
    from_bind _ _ h₁ λ left close h₂.
      let (fits, tokens) =
        object-Sound d (token_value d) (value-Sound d) 32 [] s fields.0 fields.1 read in
      let (a, b) = pair-eq (obj fields.0, left) h₂ in
      rw (← a, ← b)
        (
          fits,
          ap (tok open_object)
              (tokens ∙ ap (tokens_fields fields.0) (closed_object fields.1 left close)),
        )
value-Sound (suc d) (tok (number n) s) v rest h = from_bind _ _ h λ w one h₁.
    from_guard _ _ _ one λ good two.
      let (a, b) = pair-eq (w, s) h₁ in
      rw (← a, ← b, ← ok-injective two) (not-eq-false _ good, refl)
value-Sound (suc d) (tok (text t) s) v rest h = from_bind _ _ h λ w one h₁.
    from_guard _ _ _ one λ good two.
      let (a, b) = pair-eq (w, s) h₁ in
      rw (← a, ← b, ← ok-injective two) (not-eq-false _ good, refl)
value-Sound (suc d) (tok (truth t) s) v rest h =
    from_bind _ _ h
      λ w one h₁. let (a, b) = pair-eq (w, s) h₁ in rw (← a, ← b, ← ok-injective one) (tt, refl)
value-Sound (suc d) (tok close_array s) v rest h =
    from_bind _ _ h λ w one h₁. absurd (err-ne-ok one)
value-Sound (suc d) (tok close_object s) v rest h =
    from_bind _ _ h λ w one h₁. absurd (err-ne-ok one)
value-Sound (suc d) (tok null_token s) v rest h = from_bind _ _ h λ w one h₁. absurd (err-ne-ok one)
value-Sound (suc d) eof v rest h = absurd (err-ne-ok h)
value-Sound (suc d) bad v rest h = absurd (err-ne-ok h)
