-- ===== src/Evidence/Binding.antt =====
-- What a commitment binds its maker to (`commitment` of evidence.go).
use agro_chain.Base.{
  String, true, [], ◌∷◌, ◌≡◌, ◌≢◌, ◌⊎◌, inl, inr, ◌∙◌, refl, sym, ap, arith, all, codes, eqb,
  Bool-cases, not-eq-false,
}
use agro_chain.Codes.{ok, from_bind, from_guard, ok-injective}
use agro_chain.Text.{hex_id}
use agro_chain.Text.Hex.Digits.{is_byte, hex_text-injective}
use agro_chain.Model.{Bytes}
use agro_chain.Json.{Value}
use agro_chain.Platform.{Platform, canonical, strict_json}
use agro_chain.Evidence.{preimage, commitment}
use agro_chain.Evidence.Commitment.{read_preimage, read_preimage-preimage}

bytes_cases : (xs ys : Bytes) → (xs ≡ ys) ⊎ (xs ≢ ys)
bytes_cases [] [] = inl refl
bytes_cases [] (y ∷ ys) = inr (λ e. ground arith)
bytes_cases (x ∷ xs) [] = inr (λ e. ground arith)
bytes_cases (x ∷ xs) (y ∷ ys) = elim (Bool-cases (eqb x y)) [
  | inl same ↦ elim (bytes_cases xs ys) [
    | inl rest ↦ let e : x ≡ y = ground arith in inl (rw (e, rest) refl)
    | inr rest ↦ inr (λ e. let k : xs ≡ ys = ground arith in rest k)
  ]
  | inr other ↦ inr (λ e. let k : x ≡ y = ground arith in ground arith)
]

-- Salts of 64 digits, and bodies, with the same hashed bytes are the same.
same_parts :
    (salt salt' : String) (body body' : Bytes)
    → hex_id salt ≡ true
    → hex_id salt' ≡ true
    → preimage salt body ≡ preimage salt' body'
    → (codes salt ≡ codes salt') × (body ≡ body')
same_parts salt salt' body body' h k e =
    let read =
      sym (read_preimage-preimage salt body h)
      ∙ ap read_preimage e
      ∙ read_preimage-preimage salt' body' k in
    (ap (λ r. r.0) read, ap (λ r. r.1.1) read)

module _ (p : Platform) where
  -- Two documents, what they read as, and the bytes that are hashed for them: the same salt and the
  -- same canonical body, or two different lists of bytes with one hash.
  pub record SameOrCollision (body body' : Bytes) (salt salt' : String) : Type 0 where
    pub value : Value
    pub value' : Value
    pub out : Bytes
    pub out' : Bytes
    pub read : strict_json p body ≡ ok value
    pub read' : strict_json p body' ≡ ok value'
    pub written : canonical p p.value value ≡ ok out
    pub written' : canonical p p.value value' ≡ ok out'
    pub bound :
        ((codes salt ≡ codes salt') × (out ≡ out'))
        ⊎ ((preimage salt out ≢ preimage salt' out')
            × (p.sha256 (preimage salt out) ≡ p.sha256 (preimage salt' out')))

  -- Provided that a hash is a list of bytes: where two bodies and two salts have the same commitment,
  -- the salts are the same and the bodies have the same canonical form, or the very bytes that are
  -- hashed for the two are different and have the same hash.
  pub commitment_binding :
      ((m : Bytes) → all is_byte (p.sha256 m) ≡ true)
      → (body body' : Bytes) (salt salt' c : String) → commitment p body salt ≡ ok c
      → commitment p body' salt' ≡ ok c
      → SameOrCollision body body' salt salt'
  unfolding commitment
  commitment_binding bytes body body' salt salt' c h k = from_guard _ _ _ h λ id h₁.
      from_bind _ _ h₁ λ v read h₂. from_bind _ _ h₂ λ out written last.
        from_guard _ _ _ k λ id' k₁. from_bind _ _ k₁ λ v' read' k₂.
          from_bind _ _ k₂ λ out' written' last'.
            let hashes =
              hex_text-injective (p.sha256 (preimage salt out)) (p.sha256 (preimage salt' out'))
                (bytes _) (bytes _) (ok-injective last ∙ sym (ok-injective last')) in
            record {
              value = v;
              value' = v';
              out = out;
              out' = out';
              read = read;
              read' = read';
              written = written;
              written' = written';
              bound = elim (bytes_cases (preimage salt out) (preimage salt' out')) [
                | inl same ↦
                    inl
                      (same_parts salt salt' out out' (not-eq-false _ id) (not-eq-false _ id') same)
                | inr other ↦ inr (other, hashes)
              ];
            }
