-- ===== src/Private/Openings.antt =====
-- What the answer of VerifyDocument says of the stored document (`verifyOpening` of private.go).
use agro_chain.Base.{String, true, [], ◌∷◌, ◌≡◌, ◌∙◌, ap, sym, not-eq-false}
use agro_chain.Codes.{ok, from_bind, from_guard, from_step, ok-injective}
use agro_chain.Model.Evidence.{Envelope, Opening}
use agro_chain.Model.Evidence.Zero.{zero_envelope}
use agro_chain.Platform.{Platform, key}
use agro_chain.Ledger.{Ledger, load}
use agro_chain.Evidence.{exact}
use agro_chain.Evidence.Types.{opening_type}
use agro_chain.Evidence.Trust.{IsTrusted, verify_bundle-IsTrusted}
use agro_chain.Provider.{Transient, entry_of}
use agro_chain.Private.{
  may_read, collection_for, PrivateAnswer, opening_answer, opening_result, verify_opening,
}

module _ (p : Platform) (s : Ledger) (actor role id : String) (t : Transient) where
  pub record Opened (a : PrivateAnswer) : Type 0 where
    pub answer : a ≡ opening_answer (opening_result id)
    pub envelope : Envelope
    pub opening : Opening
    pub stored : load p.envelope s (key p "document" (id ∷ [])) zero_envelope ≡ ok (true, envelope)
    pub permitted : may_read actor role (collection_for envelope) ≡ true
    pub given : exact p (opening_type p) (entry_of "opening" t) ≡ ok opening
    pub trusted :
        IsTrusted p s (record { envelope = envelope; body = opening.body; salt = opening.salt })

  -- VerifyDocument answers that the commitment matched and the signature was verified only to a reader
  -- of the document's collection, and only where both hold of the envelope that is stored under the
  -- asked identifier, with the body and the salt of the caller's opening.
  pub verify_opening-Opened :
      (a : PrivateAnswer) → verify_opening p s actor role id t ≡ ok a → Opened a
  unfolding verify_opening
  verify_opening-Opened a h = from_guard _ _ _ h λ _ h₁. from_bind _ _ h₁ λ env there h₂.
      from_guard _ _ _ h₂ λ found h₃. from_guard _ _ _ h₃ λ permitted h₄.
        from_guard _ _ _ h₄ λ _ h₅. from_bind _ _ h₅ λ o given h₆. from_step _ _ h₆ λ verified h₇.
          record {
            answer = sym (ok-injective h₇);
            envelope = env.1;
            opening = o;
            stored = there ∙ ap (λ z. ok (z, env.1)) (not-eq-false _ found);
            permitted = not-eq-false _ permitted;
            given = given;
            trusted = verify_bundle-IsTrusted p s _ verified;
          }
