-- ===== src/Contract/Adapter/Bookmarks.antt =====
-- The tokens of `fabricLedger.page`: none leaves its range, and the one of a page continues it.
use agro_chain.Base.{
  ℕ, String, true, List, [], ◌∷◌, ◌++◌, Option, none, some, length, ◌==◌, ◌≡◌, ◌⊎◌, inl, inr, ◌∙◌,
  refl, ap, arith, not-eq-false, Bool-cases, Option-cases, eq_refl, subst, sym,
}
use agro_chain.Base.Int.{ℤ}
use agro_chain.Codes.{ok, err-ne-ok, from_bind, from_guard, ok-injective, ◌>>=◌, fail_if}
use agro_chain.Text.{has_prefix}
use agro_chain.Model.{Bytes}
use agro_chain.Platform.{Platform, key}
use agro_chain.Contract.Adapter.{
  Listing, Stub, page_prefix, drop, entries_of, decoded_bookmark, bookmark_of, next_token, listed,
  fabric_page,
}

-- base64.RawURLEncoding: decoding inverts encoding, and only no bytes are encoded as no text.
pub record Base64Law (p : Platform) : Type 0 where
  pub inverse : (b : Bytes) → p.base64_decode (p.base64_encode b) ≡ some b
  pub nonempty : (b : Bytes) → (p.base64_encode b == "") ≡ true → b ≡ []

has_prefix-append : (pre bs : Bytes) → has_prefix (pre ++ bs) pre ≡ true
unfolding has_prefix
has_prefix-append [] bs = refl
has_prefix-append (c ∷ pre) bs = rw (has_prefix-append pre bs) (ground arith)

drop-append : (pre bs : Bytes) → drop (length pre) (pre ++ bs) ≡ bs
unfolding drop
drop-append [] bs = refl
drop-append (c ∷ pre) bs = drop-append pre bs

append-nonempty : (pre : Bytes) (b : ℕ) (bs : Bytes) → pre ++ b ∷ bs ≡ [] → ⊥
append-nonempty [] b bs e = ground arith
append-nonempty (c ∷ pre) b bs e = ground arith

module _ (p : Platform) (kind : String) (attrs : List String) where
  -- The bookmarks of a range: the start, or a key that begins as the keys of the range do.
  abbrev pub InRange : Bytes → Type 0
  InRange bookmark = (bookmark ≡ []) ⊎ (has_prefix bookmark (p.bytes_of (key p kind attrs)) ≡ true)

  decoded-InRange :
      (token : String) (o : Option Bytes) (bookmark : Bytes)
      → decoded_bookmark p kind attrs token o ≡ ok bookmark
      → InRange bookmark
  unfolding decoded_bookmark
  decoded-InRange token none bookmark h = absurd (err-ne-ok h)
  decoded-InRange token (some b) bookmark h = from_guard _ _ _ h λ _ h₁.
      from_guard _ _ _ h₁ λ inside h₂. subst InRange (ok-injective h₂) (inr (not-eq-false _ inside))

  bookmark_of-InRange :
      (token : String) (bookmark : Bytes)
      → bookmark_of p kind attrs token ≡ ok bookmark
      → InRange bookmark
  unfolding bookmark_of
  bookmark_of-InRange token bookmark h = elim (Bool-cases (token == "")) [
    | inl e ↦ inl (sym (ok-injective (rw e at h)))
    | inr e ↦ decoded-InRange token (p.base64_decode token) bookmark (rw e at h)
  ]

  -- Whatever token a caller sends, a page that is answered was listed by the stub from a bookmark of
  -- the very range that was asked for: its start, or a key that begins with the composite key of the
  -- kind and the attributes. The answer holds the listed values in their order.
  pub fabric_page-InRange :
      (stub : Stub) (size : ℤ) (token : String) (page : List Bytes × String)
      → fabric_page p stub kind attrs size token ≡ ok page
      → (bookmark : Bytes) × (l : Listing) × InRange bookmark
        × (stub.range kind attrs size bookmark ≡ some l)
        × (entries_of l.entries ≡ ok page.0)
        × (page.1 ≡ next_token p kind attrs l.bookmark)
  unfolding fabric_page listed
  fabric_page-InRange stub size token page h = from_bind _ _ h λ bookmark start h₁.
      elim (Option-cases (stub.range kind attrs size bookmark)) [
        | inl e ↦ absurd (err-ne-ok (rw e at h₁))
        | inr (l, e) ↦
            let h₂ : listed p kind attrs (some l) ≡ ok page = rw e at h₁ in
            from_bind _ _ h₂ λ items read h₃. (
              bookmark,
              l,
              bookmark_of-InRange token bookmark start,
              e,
              read ∙ ap (λ (z : List Bytes × String). ok z.0) (ok-injective h₃),
              ap (λ (z : List Bytes × String). z.1) (sym (ok-injective h₃)),
            )
      ]

  -- The token of a bookmark that lies in its range, but for the start, is decoded to that bookmark, so
  -- asking again with the token that a page answered lists from where the page ended.
  pub bookmark_of-next_token :
      (law : Base64Law p) (b : ℕ) (bs : Bytes)
      → has_prefix (b ∷ bs) (p.bytes_of (key p kind attrs)) ≡ true
      → bookmark_of p kind attrs (next_token p kind attrs (b ∷ bs)) ≡ ok (b ∷ bs)
  unfolding bookmark_of next_token decoded_bookmark ◌>>=◌ fail_if
  bookmark_of-next_token law b bs inside =
      let pre = p.bytes_of (page_prefix kind attrs) in
      elim (Bool-cases (p.base64_encode (pre ++ b ∷ bs) == "")) [
        | inl e ↦ absurd (append-nonempty pre b bs (law.nonempty _ e))
        | inr e ↦ rw (e, law.inverse, eq_refl, has_prefix-append, drop-append, inside) refl
      ]
