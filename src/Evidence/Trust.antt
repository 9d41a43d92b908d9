-- ===== src/Evidence/Trust.antt =====
-- What `verifyBundle` has checked of a document that it accepts.
use agro_chain.Base.{
  refl, ◌↔◌, eq_iff, eq_refl, ◌∙◌, true, false, [], ◌∷◌, ◌≡◌, or-eq-false, not-eq-false, contains,
  eq_of_not-ne, ap, arith,
}
use agro_chain.Codes.{◌>>=◌, fail_if, Code, Result, ok, err, from_bind, from_guard, guard_last}
use agro_chain.Model.{Bytes, SourceKey}
use agro_chain.Model.Evidence.{Bundle}
use agro_chain.Model.Evidence.Zero.{zero_source_key}
use agro_chain.Platform.{Platform, key, canonical}
use agro_chain.Ledger.{Ledger, load}
use agro_chain.Evidence.{bad_header, signed_message, or_code, raw_url, commitment, verify_bundle}

or_code-ok : {A : Type 0} (r : Result A) (c : Code) (a : A) → or_code r c ≡ ok a → r ≡ ok a
unfolding or_code
or_code-ok (ok v) c a h = h
or_code-ok (err e) c a h = absurd (ground arith)

module _ (p : Platform) (s : Ledger) where
  -- A document that `verifyBundle` accepts.
  pub record IsTrusted (b : Bundle) : Type 0 where
    pub well_formed : bad_header b.envelope.header ≡ false
    pub registered : SourceKey
    pub found :
        load p.source_key s
          (key p "sourceKey" (b.envelope.header.issuer_id ∷ b.envelope.header.key_id ∷ []))
          zero_source_key
        ≡ ok (true, registered)
    pub enabled : registered.enabled ≡ true
    pub system : registered.source_system ≡ b.envelope.header.source_system
    pub type : contains b.envelope.header.document_type registered.document_types ≡ true
    pub public_key : Bytes
    pub signature : Bytes
    pub message : Bytes
    pub key_bytes : raw_url p registered.public_key 32 ≡ ok public_key
    pub signature_bytes : raw_url p b.envelope.signature 64 ≡ ok signature
    pub message_canonical : canonical p p.header b.envelope.header ≡ ok message
    pub signed : p.verify_signature public_key (signed_message message) signature ≡ true
    pub committed : commitment p b.body b.salt ≡ ok b.envelope.header.commitment

  pub verify_bundle-IsTrusted : (b : Bundle) → verify_bundle p s b ≡ ok tt → IsTrusted b
  unfolding verify_bundle
  verify_bundle-IsTrusted b h = from_guard _ _ _ h λ well_formed h₁.
      from_bind _ _ h₁ λ found there h₂. from_guard _ _ _ h₂ λ usable h₃.
        from_guard _ _ _ h₃ λ type h₄. from_bind _ _ h₄ λ public_key key_read h₅.
          from_bind _ _ h₅ λ signature signature_read h₆. from_bind _ _ h₆ λ message made h₇.
            from_guard _ _ _ h₇ λ signed h₈. from_bind _ _ h₈ λ c hashed h₉.
              let (unusable, system) = or-eq-false _ _ usable in
              let (absent, disabled) = or-eq-false _ _ unusable in
              record {
                well_formed = well_formed;
                registered = found.1;
                found = there ∙ ap (λ t. ok (t, found.1)) (not-eq-false _ absent);
                enabled = not-eq-false _ disabled;
                system = eq_of_not-ne _ _ system;
                type = not-eq-false _ type;
                public_key = public_key;
                signature = signature;
                message = message;
                key_bytes = or_code-ok _ _ _ key_read;
                signature_bytes = or_code-ok _ _ _ signature_read;
                message_canonical = made;
                signed = not-eq-false _ signed;
                committed = hashed ∙ ap ok (eq_of_not-ne _ _ (guard_last _ _ h₉));
              }

  -- `verifyBundle` accepts exactly the documents that are trusted: the header is well-formed; the ledger
  -- holds an enabled key under its issuer and key identifier, of the document's source system and
  -- allowed for its type; its signature, of 64 bytes, is one of that key, of 32 bytes, over the
  -- canonical header; and the commitment of its body under its salt is the one that the header names.
  pub verify_bundle_iff : (b : Bundle) → (verify_bundle p s b ≡ ok tt) ↔ IsTrusted b
  unfolding verify_bundle ◌>>=◌ fail_if or_code
  verify_bundle_iff b = (
    verify_bundle-IsTrusted b,
    λ t.
        rw
          (
            t.well_formed,
            t.found,
            t.enabled,
            t.key_bytes,
            t.signature_bytes,
            t.message_canonical,
            t.signed,
            t.committed,
            t.type,
            (eq_iff _ _).1 t.system,
            eq_refl,
          )
          refl,
  )
